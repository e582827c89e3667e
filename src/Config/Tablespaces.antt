-- ===== src/Config/Tablespaces.antt =====
-- `tablespace_list_append`: one entry "OLDDIR=NEWDIR" of `tablespace_mapping`, in which a backslash
-- keeps a following "=" in a name.
use hg_repmgr.Base.{
  inr, inl, Bool-cases, ℕ, ◌+◌, ◌≤◌, ◌<◌, Bool, true, false, ◌&&◌, ◌||◌, not, List, [], ◌∷◌, ◌++◌,
  ◌≡◌, ◌≢◌, refl, arith, leb, ◌==◌, if◌then◌else◌, length, length-append, ap, ◌∙◌, sym,
}
use mathlib.Core.List.{append-nil, append_assoc}

-- `MAXPGPATH`
abbrev pub maxpgpath : ℕ
maxpgpath = 1024

-- The two names, and which of them is written.
pub record Mapping : Type 0 where
  pub old_dir : List ℕ
  pub new_dir : List ℕ
  pub in_new : Bool

-- The names of the new entry, or the message before the exit.
pub data Mapped : Type 0 where
  mapped : List ℕ → List ℕ → Mapped
  too_long multiple_signs bad_format : Mapped

abbrev pub written : Mapping → List ℕ
written m = if m.in_new then m.new_dir else m.old_dir

abbrev pub write : ℕ → Mapping → Mapping
write c m =
    if m.in_new
    then record m { new_dir = m.new_dir ++ c ∷ [] }
    else record m { old_dir = m.old_dir ++ c ∷ [] }

abbrev pub is_empty_dir : List ℕ → Bool
is_empty_dir [] = true
is_empty_dir (c ∷ cs) = false

abbrev pub next_is_sign : List ℕ → Bool
next_is_sign [] = false
next_is_sign (c ∷ cs) = c == b'='

abbrev pub conclude_mapping : Mapping → Mapped
conclude_mapping m =
    if is_empty_dir m.old_dir || is_empty_dir m.new_dir
    then bad_format
    else mapped m.old_dir m.new_dir

-- The loop; `previous` is 0 at the start. A second sign is refused only if the new name has begun.
unfoldable pub read_mapping : ℕ → Mapping → List ℕ → Mapped
read_mapping previous m [] = conclude_mapping m
read_mapping previous m (c ∷ cs) =
    let skipped = read_mapping c m cs in
    let switched = read_mapping c (record m { in_new = true }) cs in
    let added = read_mapping c (write c m) cs in
    if leb maxpgpath (length (written m))
    then too_long
    else if c == b'\\' && next_is_sign cs
    then skipped
    else if c == b'=' && not (previous == b'\\')
    then (if is_empty_dir m.new_dir then switched else multiple_signs)
    else added

canonicalize : (List ℕ → List ℕ) → Mapped → Mapped
canonicalize canonicalize_path (mapped old new) =
    mapped (canonicalize_path old) (canonicalize_path new)
canonicalize canonicalize_path m = m

-- `canonicalize_path` is PostgreSQL's.
unfoldable pub tablespace_list_append : (List ℕ → List ℕ) → List ℕ → Mapped
unfolding read_mapping canonicalize
tablespace_list_append canonicalize_path arg =
    canonicalize canonicalize_path
      (read_mapping 0 (record { old_dir = []; new_dir = []; in_new = false }) arg)

-- A name as it has to be written.
abbrev pub escape_dir : List ℕ → List ℕ
escape_dir [] = []
escape_dir (c ∷ cs) =
    let rest = escape_dir cs in if c == b'=' then b'\\' ∷ b'=' ∷ rest else c ∷ rest

-- A name has no backslash of its own.
abbrev pub no_backslash : List ℕ → Bool
no_backslash [] = true
no_backslash (c ∷ cs) = not (c == b'\\') && no_backslash cs

read_plain :
    (previous c : ℕ) (m : Mapping) (cs : List ℕ)
    → length (written m) < maxpgpath
    → (c == b'=') ≡ false
    → (c == b'\\') ≡ false
    → read_mapping previous m (c ∷ cs) ≡ read_mapping c (write c m) cs
unfolding read_mapping
read_plain previous c m cs l h k = ground (arith, l, h, k)

read_escaped :
    (previous : ℕ) (m : Mapping) (cs : List ℕ)
    → length (written m) < maxpgpath
    → read_mapping previous m (b'\\' ∷ b'=' ∷ cs) ≡ read_mapping b'=' (write b'=' m) cs
unfolding read_mapping
read_escaped previous m cs l = ground (arith, l)

abbrev pub last_of : ℕ → List ℕ → ℕ
last_of previous [] = previous
last_of previous (c ∷ cs) = last_of c cs

abbrev pub write_all : List ℕ → Mapping → Mapping
write_all [] m = m
write_all (c ∷ cs) m = write_all cs (write c m)

written-write : (c : ℕ) (m : Mapping) → length (written (write c m)) ≡ length (written m) + 1
written-write c m =
    ground (arith, length-append m.old_dir (c ∷ []), length-append m.new_dir (c ∷ []))

-- A name is read up to its end, if it fits.
read_dir :
    (s rest : List ℕ) (previous : ℕ) (m : Mapping)
    → no_backslash s ≡ true
    → length (written m) + length s ≤ maxpgpath
    → read_mapping previous m (escape_dir s ++ rest)
      ≡ read_mapping (last_of previous s) (write_all s m) rest
read_dir [] rest previous m h l = refl
read_dir (c ∷ s) rest previous m h l =
    let room = written-write c m in
    let more = read_dir s rest c (write c m) (ground (arith, h)) (rw room (omega arith)) in
    elim (Bool-cases (c == b'=')) [
      | inl e ↦
          (let q : c ≡ b'=' = ground (arith, e) in
            rw e (
              rw q (read_escaped previous m (escape_dir s ++ rest) (omega arith) ∙ (rw q at more))))
      | inr e ↦ rw e (
          read_plain previous c m (escape_dir s ++ rest) (omega arith) e (ground (arith, h)) ∙ more)
    ]

write_all_old :
    (s o n : List ℕ)
    → write_all s (record { old_dir = o; new_dir = n; in_new = false })
      ≡ record { old_dir = o ++ s; new_dir = n; in_new = false }
write_all_old [] o n = rw (append-nil o) refl
write_all_old (c ∷ s) o n =
    rw (write_all_old s (o ++ c ∷ []) n) (rw (append_assoc o (c ∷ []) s) refl)

write_all_new :
    (s o n : List ℕ)
    → write_all s (record { old_dir = o; new_dir = n; in_new = true })
      ≡ record { old_dir = o; new_dir = n ++ s; in_new = true }
write_all_new [] o n = rw (append-nil n) refl
write_all_new (c ∷ s) o n =
    rw (write_all_new s o (n ++ c ∷ [])) (rw (append_assoc n (c ∷ []) s) refl)

last_of_lem :
    (previous : ℕ) (s : List ℕ)
    → (previous == b'\\') ≡ false
    → no_backslash s ≡ true
    → (last_of previous s == b'\\') ≡ false
last_of_lem previous [] p h = p
last_of_lem previous (c ∷ s) p h = last_of_lem c s (ground (arith, h)) (ground (arith, h))

read_sign :
    (previous : ℕ) (o cs : List ℕ)
    → length o < maxpgpath
    → (previous == b'\\') ≡ false
    → read_mapping previous (record { old_dir = o; new_dir = []; in_new = false }) (b'=' ∷ cs)
      ≡ read_mapping b'=' (record { old_dir = o; new_dir = []; in_new = true }) cs
unfolding read_mapping
read_sign previous o cs l h = ground (arith, l, h)

read_end :
    (previous : ℕ) (o n : List ℕ)
    → o ≢ []
    → n ≢ []
    → read_mapping previous (record { old_dir = o; new_dir = n; in_new = true }) [] ≡ mapped o n
unfolding read_mapping
read_end previous [] n p q = absurd (p refl)
read_end previous (x ∷ o) [] p q = absurd (q refl)
read_end previous (x ∷ o) (y ∷ n) p q = refl

read_mapping-escape_dir :
    (old new : List ℕ)
    → old ≢ []
    → new ≢ []
    → no_backslash old ≡ true
    → no_backslash new ≡ true
    → length old < maxpgpath
    → length new < maxpgpath
    → read_mapping 0
        (record { old_dir = []; new_dir = []; in_new = false })
        (escape_dir old ++ b'=' ∷ escape_dir new)
      ≡ mapped old new
read_mapping-escape_dir old new a b h k l m =
    read_dir old (b'=' ∷ escape_dir new) 0 (record { old_dir = []; new_dir = []; in_new = false }) h
      (omega arith)
    ∙ ap (λ x. read_mapping (last_of 0 old) x (b'=' ∷ escape_dir new)) (write_all_old old [] [])
    ∙ read_sign (last_of 0 old) old (escape_dir new) l (last_of_lem 0 old refl h)
    ∙ sym (
        ap (λ x. read_mapping b'=' (record { old_dir = old; new_dir = []; in_new = true }) x)
          (append-nil (escape_dir new)))
    ∙ read_dir new [] b'=' (record { old_dir = old; new_dir = []; in_new = true }) k (omega arith)
    ∙ ap (λ x. read_mapping (last_of b'=' new) x []) (write_all_new new old [])
    ∙ read_end (last_of b'=' new) old new a b

-- A mapping whose two names are written with a backslash in front of each "=" is stored as the
-- canonical paths of exactly these two names, if the names are not empty, have no backslash of their
-- own, and are shorter than the arrays. What the canonical path of a name is stays open.
pub tablespace_list_append-escape_dir :
    (canonicalize_path : List ℕ → List ℕ) (old new : List ℕ)
    → old ≢ []
    → new ≢ []
    → no_backslash old ≡ true
    → no_backslash new ≡ true
    → length old < maxpgpath
    → length new < maxpgpath
    → tablespace_list_append canonicalize_path (escape_dir old ++ b'=' ∷ escape_dir new)
      ≡ mapped (canonicalize_path old) (canonicalize_path new)
unfolding tablespace_list_append canonicalize
tablespace_list_append-escape_dir canonicalize_path old new a b h k l m =
    ap (canonicalize canonicalize_path) (read_mapping-escape_dir old new a b h k l m)
