-- ===== src/Monitoring/Deeds.antt =====
-- The actions of failovers in the log of a monitoring loop.
use hg_repmgr.Base.{Bool, false, ◌||◌, List, [], ◌∷◌, ◌++◌, map, ◌≡◌, refl, arith}
use hg_repmgr.Failover.{Action}
use hg_repmgr.Failover.Primary.Safety.{is_promote, promotes}
use hg_repmgr.Monitoring.{Deed, failover_action}

-- An action of a failover that satisfies `p` is in the log.
abbrev pub does : (Action → Bool) → List Deed → Bool
does p [] = false
does p (failover_action a ∷ ds) = p a || does p ds
does p (_ ∷ ds) = does p ds

pub does-append :
    (p : Action → Bool) (xs ys : List Deed) → does p (xs ++ ys) ≡ (does p xs || does p ys)
does-append p [] ys = refl
does-append p (x ∷ xs) ys = ground (arith, does-append p xs ys)

pub does-promotes : (as' : List Action) → does is_promote (map failover_action as') ≡ promotes as'
does-promotes [] = refl
does-promotes (a ∷ as') = ground (arith, does-promotes as')
