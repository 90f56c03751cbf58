-- ===== src/Agent/Cache.antt =====
-- intelligence-layer/src/agent/response_cache.py: the key of an alert, and the calls of Redis. What
-- Redis answers, the digest and `json.loads` are parameters. The hit rate, a float, is left out.
use s_com_control_plane.Base.{
  Bool, List, Option, Text, [], arith, codes, false, if◌then◌else◌, lower, none, refl, some, true,
  ℕ, ◌++◌, ◌+◌, ◌∷◌, ◌≡◌, ◌≤◌,
}
use s_com_control_plane.Topology.{ip_to_zone}
use s_com_control_plane.Judgement.Traffic.{TrafficPattern, match_baseline}
use s_com_control_plane.Agent.Intent.{show_ℕ}
use s_com_control_plane.Agent.Consistency.{zone_text}

abbrev pub protocol_or_tcp : Text → Text
protocol_or_tcp [] = codes "tcp"
protocol_or_tcp (c ∷ s) = lower (c ∷ s)

abbrev pub dst_zone_text : Text → Text
unfolding ip_to_zone
dst_zone_text [] = codes "none"
dst_zone_text (c ∷ s) = zone_text (ip_to_zone (c ∷ s))

abbrev pub baseline_text : Option TrafficPattern → Text
baseline_text none = codes "none"
baseline_text (some p) = p.name

-- `feature_blob`
unfoldable pub feature_blob : List TrafficPattern → ℕ → Text → Text → ℕ → Text → Text → Text
unfolding ip_to_zone match_baseline dst_zone_text
feature_blob patterns sid src_ip dst_ip dst_port protocol signal =
    codes "sid="
    ++ (show_ℕ sid
        ++ (codes "|src_zone="
            ++ (zone_text (ip_to_zone src_ip)
                ++ (codes "|dst_zone="
                    ++ (dst_zone_text dst_ip
                        ++ (codes "|dst_port="
                            ++ (show_ℕ dst_port
                                ++ (codes "|proto="
                                    ++ (protocol
                                        ++ (codes "|baseline="
                                            ++ (baseline_text (
                                                  match_baseline patterns src_ip dst_ip dst_port
                                                    (protocol_or_tcp protocol))
                                                ++ (codes "|corr=" ++ signal))))))))))))

-- The digest gives the first 16 digits of SHA-256.
unfoldable pub compute_key :
    (Text → Text) → List TrafficPattern → ℕ → Text → Text → ℕ → Text → Text → Text
unfolding feature_blob
compute_key digest patterns sid src_ip dst_ip dst_port protocol signal =
    codes "agent:resp_cache:"
    ++ digest (feature_blob patterns sid src_ip dst_ip dst_port protocol signal)

-- The counters in Redis.
pub record Stats : Type 0 where
  pub hits : ℕ
  pub misses : ℕ

-- What Redis answers to a read.
pub data Lookup : Type 0 where
  unreachable absent : Lookup
  value : Text → Lookup

-- The effect of `_incr`, whose failures are silent: whether Redis takes it is an argument.
abbrev pub incr_if : Bool → ℕ → ℕ
incr_if taken n = if taken then n + 1 else n

module _ {D : Type 0} (loads : Text → Option D) (taken : Bool) where
  abbrev pub read_data : Option D → Stats → Option D × Stats
  read_data none s = (none, s)
  read_data (some d) s = (some d, record s { hits = incr_if taken s.hits })

  abbrev pub look : Lookup → Stats → Option D × Stats
  look Lookup.unreachable s = (none, s)
  look Lookup.absent s = (none, record s { misses = incr_if taken s.misses })
  look (Lookup.value []) s = (none, record s { misses = incr_if taken s.misses })
  look (Lookup.value (c ∷ t)) s = read_data (loads (c ∷ t)) s

  -- `get`
  unfoldable pub get : Bool → Lookup → Stats → Option D × Stats
  get enabled found s = if enabled then look found s else (none, s)

  abbrev pub HitOrMiss : Stats → Option D × Stats → Type 0
  HitOrMiss s (some d, s') = (s'.hits ≡ incr_if taken s.hits) × (s'.misses ≡ s.misses)
  HitOrMiss s (none, s') = (s'.hits ≡ s.hits) × (s'.misses ≤ s.misses + 1)

  read_data-HitOrMiss : (o : Option D) (s : Stats) → HitOrMiss s (read_data o s)
  read_data-HitOrMiss none s = (refl, omega arith)
  read_data-HitOrMiss (some d) s = (refl, refl)

  incr_if-suc : (n : ℕ) → incr_if taken n ≤ n + 1
  incr_if-suc n = ground arith

  look-HitOrMiss : (l : Lookup) (s : Stats) → HitOrMiss s (look l s)
  look-HitOrMiss Lookup.unreachable s = (refl, omega arith)
  look-HitOrMiss Lookup.absent s = (refl, incr_if-suc s.misses)
  look-HitOrMiss (Lookup.value []) s = (refl, incr_if-suc s.misses)
  look-HitOrMiss (Lookup.value (c ∷ t)) s = read_data-HitOrMiss (loads (c ∷ t)) s

  -- A read counts a hit, and no miss, exactly if it gives data; else it counts at most one miss.
  get-HitOrMiss : (enabled : Bool) (l : Lookup) (s : Stats) → HitOrMiss s (get enabled l s)
  unfolding get
  get-HitOrMiss true l s = look-HitOrMiss l s
  get-HitOrMiss false l s = (refl, omega arith)

-- What `set` asks Redis to store: the key, the dumped text, and its lifetime. The text is `none`
-- where `json.dumps` raises.
unfoldable pub set : Bool → ℕ → Text → Option Text → Option (Text × Text × ℕ)
set false ttl key payload = none
set true ttl key none = none
set true ttl key (some t) = some (key, t, ttl)
