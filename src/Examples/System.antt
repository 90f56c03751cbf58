-- ===== src/Examples/System.antt =====
-- An alert on its way to a LEAF.
use s_com_control_plane.Base.{none, some, true}
use s_com_control_plane.Enforcement.{up}
use s_com_control_plane.Enforcement.System.{run_alert}
use s_com_control_plane.Enforcement.System.Guarded.{OneGuarded, run_alert-OneGuarded}
use s_com_control_plane.Examples.Agent.{settings, quiet_env, web_alert, first_world}
use s_com_control_plane.Examples.Rest.{one_leaf, untouched}

run_alert-OneGuarded_example :
    OneGuarded true
      (λ _ _. none)
      (λ _ _. none)
      (some one_leaf)
      up
      (λ s. s)
      settings
      quiet_env
      web_alert
      first_world
      untouched
      (run_alert true
        (λ _ _. none)
        (λ _ _. none)
        (some one_leaf)
        up
        (λ s. s)
        settings
        quiet_env
        web_alert
        first_world
        untouched).2
run_alert-OneGuarded_example =
    run_alert-OneGuarded true (λ _ _. none) (λ _ _. none) (some one_leaf) up (λ s. s) settings
      quiet_env web_alert first_world untouched
