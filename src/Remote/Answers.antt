-- ===== src/Remote/Answers.antt =====
-- What `repmgr node check --optformat` prints on one host, as a switchover reads it on another.
use hg_repmgr.Base.{
  ◌⊎◌, ℤ, pos, ℕ, Bool, true, false, List, [], ◌∷◌, ◌++◌, none, some, ◌≡◌, ◌↔◌, refl, ap, ◌∙◌,
  arith, ◌≤ℤ◌, All, codes, print_int,
}
use mathlib.Core.List.{append_assoc}
use hg_repmgr.KeyValue.{om_optformat}
use hg_repmgr.Config.Numbers.{IsInt32, strtol-print_int, to_int32-IsInt32}
use hg_repmgr.NodeCheck.{
  CheckStatus, check_ok, check_warning, check_critical, check_unknown, Report, report_check, prints,
  opt_line, output_check_status,
}
use hg_repmgr.NodeCheck.Checks.{
  Thresholds, archive_status, archive_details, do_node_check_archive_ready,
}
use hg_repmgr.Remote.{
  allows, archiver_status, trim_right, trim_left, trim, trim_all, strtok_from, Archiver,
  archiver_option, parse_node_check_archiver, getopt_long, long_option, split_option, read_archiver,
  status_of, parse_output_to_argv, archiver_allows, atoi,
}
use hg_repmgr.Remote.Words.{
  IsWord, line, parse_output_to_argv-line, Printable-append, print_int-Printable,
}

-- The answer that the switchover is meant to get.
abbrev pub told : Thresholds → ℤ → CheckStatus → Archiver
told t n check_ok = record { status = check_ok; files = n; threshold = pos 0 }
told t n check_warning = record { status = check_warning; files = n; threshold = t.warning }
told t n check_critical = record { status = check_critical; files = n; threshold = t.critical }
told t n check_unknown = record { status = check_unknown; files = pos 0; threshold = pos 0 }

atoi-print_int : (n : ℤ) → IsInt32 n → atoi (print_int n) ≡ n
atoi-print_int n h = rw (strtol-print_int n h) (to_int32-IsInt32 n h)

IsWord-print_int : (name : List ℕ) (n : ℤ) → IsWord name → IsWord (name ++ print_int n)
IsWord-print_int [] n h = absurd (h.0 refl)
IsWord-print_int (c ∷ name) n h =
    (λ e. cc, Printable-append (c ∷ name) (print_int n) h.1 (print_int-Printable n))

abbrev files_word : ℤ → List ℕ
files_word n = codes "--files=" ++ print_int n

abbrev threshold_word : ℤ → List ℕ
threshold_word n = codes "--threshold=" ++ print_int n

abbrev status_word : CheckStatus → List ℕ
status_word s = codes "--status=" ++ output_check_status s

IsWord-status_word : (s : CheckStatus) → IsWord (status_word s)
IsWord-status_word check_ok = (λ e. cc, ground arith)
IsWord-status_word check_warning = (λ e. cc, ground arith)
IsWord-status_word check_critical = (λ e. cc, ground arith)
IsWord-status_word check_unknown = (λ e. cc, ground arith)

status_of-output_check_status : (s : CheckStatus) → status_of (output_check_status s) ≡ s
unfolding status_of
status_of-output_check_status check_ok = refl
status_of-output_check_status check_warning = refl
status_of-output_check_status check_critical = refl
status_of-output_check_status check_unknown = refl

abbrev start : Archiver
start = record { status = check_unknown; files = pos 0; threshold = pos 0 }

-- A line of words is read as its words.
read_line :
    (ws : List (List ℕ))
    → All IsWord ws
    → parse_node_check_archiver (line ws) ≡ read_archiver (getopt_long ws) start
unfolding parse_node_check_archiver
read_line ws h = ap (λ a. read_archiver (getopt_long a) start) (parse_output_to_argv-line ws h)

IsWord-files_word : (n : ℤ) → IsWord (files_word n)
IsWord-files_word n = IsWord-print_int (codes "--files=") n (λ e. cc, ground arith)

IsWord-threshold_word : (n : ℤ) → IsWord (threshold_word n)
IsWord-threshold_word n = IsWord-print_int (codes "--threshold=") n (λ e. cc, ground arith)

read_two :
    (s : CheckStatus) (n : ℤ)
    → IsInt32 n
    → parse_node_check_archiver (line (status_word s ∷ files_word n ∷ []))
      ≡ record { status = s; files = n; threshold = pos 0 }
unfolding getopt_long long_option split_option read_archiver archiver_option
read_two s n h =
    read_line (status_word s ∷ files_word n ∷ []) (IsWord-status_word s, (IsWord-files_word n, tt))
    ∙ rw (status_of-output_check_status s) (rw (atoi-print_int n h) refl)

read_three :
    (s : CheckStatus) (n m : ℤ)
    → IsInt32 n
    → IsInt32 m
    → parse_node_check_archiver (line (status_word s ∷ files_word n ∷ threshold_word m ∷ []))
      ≡ record { status = s; files = n; threshold = m }
unfolding getopt_long long_option split_option read_archiver archiver_option
read_three s n m h k =
    read_line (status_word s ∷ files_word n ∷ threshold_word m ∷ [])
      (IsWord-status_word s, (IsWord-files_word n, (IsWord-threshold_word m, tt)))
    ∙ rw (status_of-output_check_status s) (rw (atoi-print_int n h) (rw (atoi-print_int m k) refl))

-- An unknown status has no details.
read_unknown : parse_node_check_archiver (codes "--status=UNKNOWN \n") ≡ start
unfolding parse_node_check_archiver parse_output_to_argv strtok_from trim_all trim trim_left
    trim_right getopt_long long_option split_option read_archiver archiver_option status_of
read_unknown = refl

-- The thresholds are positive 32-bit integers, as the configuration wants.
pub record IsConfigured (t : Thresholds) : Type 0 where
  pub warning_fits : IsInt32 t.warning
  pub critical_fits : IsInt32 t.critical
  pub warning_positive : pos 1 ≤ℤ t.warning
  pub critical_positive : pos 1 ≤ℤ t.critical

read_opt_line :
    (t : Thresholds) (n : ℤ) (s : CheckStatus)
    → IsConfigured t
    → IsInt32 n
    → parse_node_check_archiver (opt_line s (archive_details om_optformat t n s)) ≡ told t n s
unfolding archive_details
read_opt_line t n check_ok g h = read_two check_ok n h
read_opt_line t n check_warning g h =
    ap parse_node_check_archiver (simp append_assoc)
    ∙ read_three check_warning n t.warning h g.warning_fits
read_opt_line t n check_critical g h =
    ap parse_node_check_archiver (simp append_assoc)
    ∙ read_three check_critical n t.critical h g.critical_fits
read_opt_line t n check_unknown g h = read_unknown

-- What a host prints about its pending archive files is read on another host as the status that it
-- has there, the number of files, and the threshold that they are above, if the two thresholds are
-- positive and all three are 32-bit integers.
pub parse_node_check_archiver-do_node_check_archive_ready :
    (t : Thresholds) (n : ℤ)
    → IsConfigured t
    → IsInt32 n
    → (r : Report) × (do_node_check_archive_ready om_optformat false t n ≡ some r)
      × (parse_node_check_archiver r.output ≡ told t n (archive_status t n))
unfolding do_node_check_archive_ready report_check
parse_node_check_archiver-do_node_check_archive_ready t n g h =
    let s = archive_status t n in
    (prints s (opt_line s (archive_details om_optformat t n s)), refl, read_opt_line t n s g h)

told-status : (t : Thresholds) (n : ℤ) (s : CheckStatus) → (told t n s).status ≡ s
told-status t n check_ok = refl
told-status t n check_warning = refl
told-status t n check_critical = refl
told-status t n check_unknown = refl

allows_iff :
    (force : Bool) (t : Thresholds) (n : ℤ)
    → IsConfigured t
    → (allows force (archive_status t n) ≡ true)
      ↔ ((force ≡ true) ⊎ ((pos 0 ≤ℤ n) × (n ≤ℤ t.critical)))
unfolding allows archive_status
allows_iff force t n g =
    let w = g.warning_positive in
    let c = g.critical_positive in (λ h. ground (arith, h, w, c), λ h. ground (arith, h, w, c))

-- A switchover goes on after what the other host has printed about its pending archive files if and
-- only if it is forced, or their number is known and not above that host's critical threshold; the
-- thresholds are positive and all three are 32-bit integers. After a command that failed it goes on
-- only if it is forced.
pub archiver_allows_iff :
    (force : Bool) (t : Thresholds) (n : ℤ)
    → IsConfigured t
    → IsInt32 n
    → ((r : Report) × (do_node_check_archive_ready om_optformat false t n ≡ some r)
        × ((archiver_allows force (some r.output) ≡ true)
            ↔ ((force ≡ true) ⊎ ((pos 0 ≤ℤ n) × (n ≤ℤ t.critical)))))
      × (archiver_allows force none ≡ force)
unfolding archiver_allows archiver_status
archiver_allows_iff force t n g h =
    let (r, asked, read) = parse_node_check_archiver-do_node_check_archive_ready t n g h in
    let same : archiver_status (some r.output) ≡ archive_status t n =
      ap (λ a. a.status) read ∙ told-status t n (archive_status t n) in
    ((r, asked, rw same (allows_iff force t n g)), refl)
