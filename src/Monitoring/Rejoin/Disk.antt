-- ===== src/Monitoring/Rejoin/Disk.antt =====
-- `check_disk`: when the database processes are left alone.
use mathlib.Core.Path.{subst}
use hg_repmgr.Base.{
  refl, ◌&&◌, ◌⊎◌, ltb, ℕ, zero, suc, ◌+◌, ◌≤◌, ◌<◌, Bool, true, false, ◌||◌, ◌≡◌, ◌↔◌, arith,
  Bool-cases, inl, inr,
}
use hg_repmgr.Monitoring.Rejoin.{
  Touch, Touched, DiskAlarm, touch_loop, finish_check, check_disk, calm,
}

-- A touch succeeds within the attempts from `i`, none before it did, and no alarm went off up to it.
pub record Works (left : ℕ) (touches : ℕ → Touch) (i : ℕ) : Type 0 where
  pub at : ℕ
  pub from : i ≤ at
  pub within : at < i + left
  pub succeeded : (touches at).succeeds ≡ true
  pub first : (j : ℕ) → i ≤ j → j < at → (touches j).succeeds ≡ false
  pub in_time : (j : ℕ) → i ≤ j → j ≤ at → (touches j).alarmed ≡ false

-- What holds at `i` and after it holds from `i` on.
from_next : (P : ℕ → Type 0) (i j : ℕ) → P i → (suc i ≤ j → P j) → i ≤ j → P j
from_next P i j h k l = elim (Bool-cases (ltb i j)) [
  | inl e ↦ k (ground (arith, e))
  | inr e ↦ subst P (ground (arith, e, l)) h
]

Works-next :
    (left : ℕ) (touches : ℕ → Touch) (i : ℕ)
    → (touches i).succeeds ≡ false
    → (touches i).alarmed ≡ false
    → Works left touches (suc i)
    → Works (suc left) touches i
Works-next left touches i e a w = record {
  at = w.at;
  from = ground (arith, w.from);
  within = ground (arith, w.within);
  succeeded = w.succeeded;
  first = λ j p q. from_next (λ k. (touches k).succeeds ≡ false) i j e (λ l. w.first j l q) p;
  in_time = λ j p q. from_next (λ k. (touches k).alarmed ≡ false) i j a (λ l. w.in_time j l q) p;
}

Works-now :
    (left : ℕ) (touches : ℕ → Touch) (i : ℕ)
    → (touches i).succeeds ≡ true
    → (touches i).alarmed ≡ false
    → Works (suc left) touches i
Works-now left touches i e a = record {
  at = i;
  from = omega arith;
  within = omega arith;
  succeeded = e;
  first = λ j p q. absurd (omega arith);
  in_time =
      λ j p q. from_next (λ k. (touches k).alarmed ≡ false) i j a (λ l. absurd (omega arith)) p;
}

Works-sound :
    (left : ℕ) (touches : ℕ → Touch) (i : ℕ) (label : Bool)
    → (touch_loop left touches i label).success ≡ true
    → (touch_loop left touches i label).alarm.touch_label ≡ false
    → (label ≡ false) × Works left touches i
unfolding touch_loop
Works-sound zero touches i label h k = absurd (ground (arith, h))
Works-sound (suc left) touches i label h k = elim (Bool-cases (touches i).succeeds) [
  | inl e ↦ (ground (arith, k, e), Works-now left touches i e (ground (arith, k, e)))
  | inr e ↦
      (let (quiet, w) =
          Works-sound left touches (suc i) (label || (touches i).alarmed) (ground (arith, h, e))
            (ground (arith, k, e)) in
        (ground (arith, quiet), Works-next left touches i e (ground (arith, quiet)) w))
]

later_success :
    (touches : ℕ → Touch) (i at : ℕ)
    → (touches i).succeeds ≡ false
    → (touches at).succeeds ≡ true
    → i ≤ at
    → suc i ≤ at
later_success touches i at e h l = elim (Bool-cases (ltb i at)) [
  | inl k ↦ ground (arith, k)
  | inr k ↦ let q : at ≡ i = ground (arith, k, l) in absurd (ground (arith, e, rw q at h))
]

Works-complete :
    (left : ℕ) (touches : ℕ → Touch) (i : ℕ)
    → Works left touches i
    → ((touch_loop left touches i false).success ≡ true)
      × ((touch_loop left touches i false).alarm.touch_label ≡ false)
unfolding touch_loop
Works-complete zero touches i w = absurd (ground (arith, w.from, w.within))
Works-complete (suc left) touches i w =
    let a = w.in_time i (omega arith) w.from in
    elim (Bool-cases (touches i).succeeds) [
      | inl e ↦ (ground (arith, e, a), ground (arith, e, a))
      | inr e ↦ rw e (
          rw a (
            Works-complete left touches (suc i) (record {
              at = w.at;
              from = later_success touches i w.at e w.succeeded w.from;
              within = ground (arith, w.within);
              succeeded = w.succeeded;
              first = λ j p q. w.first j (omega arith) q;
              in_time = λ j p q. w.in_time j (omega arith) q;
            })))
    ]

-- A label that is set before the loop stays set.
touch_loop_labelled :
    (left : ℕ) (touches : ℕ → Touch) (i : ℕ)
    → (touch_loop left touches i true).alarm.touch_label ≡ true
unfolding touch_loop
touch_loop_labelled zero touches i = refl
touch_loop_labelled (suc left) touches i = ground (arith, touch_loop_labelled left touches (suc i))

finish_check_iff :
    (t : Touched)
    → ((finish_check t).kills ≡ false) ↔ ((t.success ≡ true) × (t.alarm.touch_label ≡ false))
unfolding finish_check
finish_check_iff t = (λ h. (ground (arith, h), ground (arith, h)), λ h. ground (arith, h))

finish_check-calm : (t : Touched) → (finish_check t).kills ≡ false → (finish_check t).alarm ≡ calm
unfolding finish_check
finish_check-calm t h = ground (arith, h)

pub check_disk-calm :
    (times : ℕ) (touches : ℕ → Touch) (late : Bool) (a : DiskAlarm)
    → (check_disk times touches late a).kills ≡ false
    → (check_disk times touches late a).alarm ≡ calm
unfolding check_disk
check_disk-calm times touches late a =
    finish_check-calm (touch_loop times touches 0 (a.touch_label || a.armed && late))

check_disk-touch_label :
    (times : ℕ) (touches : ℕ → Touch) (late : Bool) (a : DiskAlarm)
    → (check_disk times touches late a).alarm.touch_label ≡ false
unfolding check_disk finish_check
check_disk-touch_label times touches late a = ground arith

-- Nothing is left over from the last check: no label, and no alarm that has gone off since.
abbrev pub IsClear : Bool → DiskAlarm → Type 0
IsClear late a = (a.touch_label ≡ false) × ((a.armed ≡ false) ⊎ (late ≡ false))

disk_iff :
    (times : ℕ) (touches : ℕ → Touch) (late : Bool) (a : DiskAlarm)
    → ((check_disk times touches late a).kills ≡ false) ↔ (IsClear late a × Works times touches 0)
unfolding check_disk
disk_iff times touches late a =
    let label = a.touch_label || a.armed && late in
    let (to, from) = finish_check_iff (touch_loop times touches 0 label) in
    (
      λ h.
          let (q, w) = Works-sound times touches 0 label (to h).0 (to h).1 in
          ((ground (arith, q), ground (arith, q)), w),
      λ h.
          let q : label ≡ false = ground (arith, h.0.0, h.0.1) in
          from (rw q (Works-complete times touches 0 h.1)),
    )

-- `check_disk` leaves the database processes alone exactly if nothing is left over from the check
-- before (the label is not set, and no alarm that was still pending has gone off since), one of
-- `device_check_times` touches of the data directory succeeds, and no alarm goes off up to the first
-- one that does. Each check leaves the label unset; one that kills nothing leaves no alarm pending.
pub check_disk_iff :
    (times : ℕ) (touches : ℕ → Touch) (late : Bool) (a : DiskAlarm)
    → (((check_disk times touches late a).kills ≡ false) ↔ (IsClear late a × Works times touches 0))
      × ((check_disk times touches late a).alarm.touch_label ≡ false)
      × ((check_disk times touches late a).kills ≡ false
          → (check_disk times touches late a).alarm ≡ calm)
check_disk_iff times touches late a = (
  disk_iff times touches late a,
  check_disk-touch_label times touches late a,
  check_disk-calm times touches late a,
)

-- A first touch that fails with an alarm, and a second one that succeeds.
abbrev pub IsSlow : (ℕ → Touch) → Type 0
IsSlow touches =
    ((touches 0).succeeds ≡ false)
    × ((touches 0).alarmed ≡ true)
    × ((touches 1).succeeds ≡ true)
    × ((touches 1).alarmed ≡ false)

slow_check :
    (times : ℕ) (touches : ℕ → Touch) (late : Bool) (a : DiskAlarm)
    → IsSlow touches
    → check_disk (suc (suc times)) touches late a
      ≡ record { kills = true; alarm = record { touch_label = false; armed = true } }
unfolding check_disk finish_check touch_loop
slow_check times touches late a (f, l, s, q) = ground (arith, f, l, s, q)

late_check :
    (times : ℕ) (touches : ℕ → Touch)
    → (check_disk times touches true (record { touch_label = false; armed = true })).kills ≡ true
unfolding check_disk finish_check
late_check times touches = ground (arith, touch_loop_labelled times touches 0)

-- If the first touch of a check fails with an alarm, and the second one succeeds in time, then the
-- check kills the database processes and leaves the alarm pending; if that alarm goes off before the
-- next check, the next one kills them too, whatever its touches.
pub alarm_left :
    (times : ℕ) (touches next : ℕ → Touch) (late : Bool) (a : DiskAlarm)
    → IsSlow touches
    → let first = check_disk (suc (suc times)) touches late a in
      (first.kills ≡ true) × ((check_disk (suc (suc times)) next true first.alarm).kills ≡ true)
alarm_left times touches next late a slow =
    rw (slow_check times touches late a slow) (refl, late_check (suc (suc times)) next)
