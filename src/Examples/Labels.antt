-- ===== src/Examples/Labels.antt =====
-- A rule of an hour, and an alert from its source after ten minutes.
use s_com_control_plane.Base.{
  List, Text, [], any, codes, keep, none, refl, some, text_dec, ◌+◌, ◌∷◌, ◌≡◌,
}
use s_com_control_plane.Judgement.Reputation.{recurrence}
use s_com_control_plane.Judgement.Labels.{
  Entry, alert, zoned, zoneless, Answer, alerts, during_ttl, Row, label_one, Tables, pending,
}
use s_com_control_plane.Judgement.Labels.Laws.{
  is_during, label_by, label_one-label, cycles, cycles-stuck,
}

abbrev web_source : Text
web_source = codes "10.1.100.10"

abbrev an_hour : Row
an_hour = record {
  id = codes "d1";
  alert_src_ip = some web_source;
  outcome = codes "enforced";
  created_at = 1000;
  ttl_seconds = none;
  label = none;
}

abbrev after_ten_minutes : List Entry
after_ten_minutes =
    alert (some (codes "10.1.200.10")) (zoned 1200) ∷ alert (some web_source) (zoned 1600) ∷ []

labelled : label_one an_hour (alerts after_ten_minutes) ≡ some (recurrence, during_ttl 1)
unfolding label_one text_dec
labelled = refl

-- A time with no zone raises.
zoneless_raises : label_one an_hour (alerts (alert (some web_source) (zoneless 1600) ∷ [])) ≡ none
unfolding label_one text_dec
zoneless_raises = refl

label_one-label_example :
    recurrence ≡ label_by (any (is_during web_source (1000 + 3600)) after_ten_minutes)
label_one-label_example =
    label_one-label an_hour web_source after_ten_minutes (recurrence, during_ttl 1) refl labelled

-- Every source is answered with an alert whose time has no zone.
abbrev ask_zoneless : Row → Answer
ask_zoneless d = alerts (alert d.alert_src_ip (zoneless 1600) ∷ [])

abbrev one_waits : Tables
one_waits = record { decisions = an_hour ∷ []; history = an_hour ∷ [] }

waits : keep (pending 3000) one_waits.decisions ≡ an_hour ∷ []
unfolding text_dec
waits = refl

cycles-stuck_example : cycles ask_zoneless (3000 ∷ 3000 ∷ []) one_waits ≡ one_waits
cycles-stuck_example =
    cycles-stuck ask_zoneless (3000 ∷ 3000 ∷ []) one_waits an_hour (([], waits), (([], waits), tt))
      zoneless_raises
