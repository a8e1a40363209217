-- ===== src/LicenseMgr/File.antt =====
-- server/natserver/src/LicenseMgr.cpp: what `load` reads of what `save` wrote.
use p2p_server.Prelude.{
  ℕ, ◌==◌, ◌≡◌, ◌≢◌, refl, sym, ap, ◌∙◌, Bool, true, false, not, ◌&&◌, [], ◌∷◌, ◌++◌, some, ◌⊎◌,
  inl, inr, Bytes, bytes_eq, bytes_eq_iff, bytes_lt, bytes_lt_irrefl, bytes_lt_trans, is_empty,
  codes, arith, All, Option, none, take,
}
use p2p_server.Prelude.Maps.{insert, bytes_key}
use p2p_server.Prelude.Unique.{Ordered, Above}
use mathlib.Core.Path.{subst}
use p2p_server.LicenseMgr.{
  LicenseMgr, UuidSet, enc_magic, plain_header, drop_cr, parse_line, parse_lines, parse_uuids,
  returned, blocked, count_locking, log_count, load_encrypted, load, lines_of, plain_text, save,
}

abbrev pub IsLineByte : ℕ → Type 0
IsLineByte b = b ≢ 10

-- A uuid that a line can hold: no line feed, no `#` in front, no carriage return at the end.
abbrev pub IsListed : Bytes → Type 0
IsListed [] = ⊥
IsListed (b ∷ bs) = (b ≢ b'#') × All IsLineByte (b ∷ bs) × (drop_cr (b ∷ bs) ≡ b ∷ bs)

abbrev pub AreListed : UuidSet → Type 0
AreListed [] = Unit
AreListed ((uuid, _) ∷ m) = IsListed uuid × AreListed m

snoc_append : (xs : Bytes) (b : ℕ) (ys : Bytes) → (xs ++ b ∷ []) ++ ys ≡ xs ++ b ∷ ys
snoc_append [] b ys = refl
snoc_append (x ∷ xs) b ys = ap (◌∷◌ x) (snoc_append xs b ys)

pub append_assoc : (xs ys zs : Bytes) → (xs ++ ys) ++ zs ≡ xs ++ (ys ++ zs)
append_assoc [] ys zs = refl
append_assoc (x ∷ xs) ys zs = ap (◌∷◌ x) (append_assoc xs ys zs)

-- A line, its line feed, the lines after it and what follows them.
split_line : (xs : Bytes) (b : ℕ) (ys zs : Bytes) → (xs ++ b ∷ ys) ++ zs ≡ xs ++ b ∷ (ys ++ zs)
split_line [] b ys zs = refl
split_line (x ∷ xs) b ys zs = ap (◌∷◌ x) (split_line xs b ys zs)

append_nil : (xs : Bytes) → xs ++ [] ≡ xs
append_nil [] = refl
append_nil (x ∷ xs) = ap (◌∷◌ x) (append_nil xs)

not_line_feed : (b : ℕ) → b ≢ 10 → (b == 10) ≡ false
not_line_feed b h = ground arith

blank : (out : UuidSet) → parse_lines [] [] out ≡ out
unfolding parse_lines parse_line
blank out = refl

-- A line that ends with a line feed, and the last one.
parse_lines-line :
    (line u rest : Bytes) (out : UuidSet)
    → All IsLineByte u
    → parse_lines line (u ++ 10 ∷ rest) out ≡ parse_lines [] rest (parse_line (line ++ u) out)
unfolding parse_lines
parse_lines-line line [] rest out h = rw (append_nil line) refl
parse_lines-line line (b ∷ u) rest out h = rw (not_line_feed b h.0) (
    parse_lines-line (line ++ b ∷ []) u rest out h.1
    ∙ ap (λ (t : Bytes). parse_lines [] rest (parse_line t out)) (snoc_append line b u))

pub parse_lines_last :
    (line u : Bytes) (out : UuidSet)
    → All IsLineByte u
    → parse_lines line u out ≡ parse_line (line ++ u) out
unfolding parse_lines
parse_lines_last line [] out h = rw (append_nil line) refl
parse_lines_last line (b ∷ u) out h = rw (not_line_feed b h.0) (
    parse_lines_last (line ++ b ∷ []) u out h.1
    ∙ ap (λ (t : Bytes). parse_line t out) (snoc_append line b u))

pub parse_line-IsListed :
    (u : Bytes) (out : UuidSet) → IsListed u → parse_line u out ≡ insert u tt out
unfolding parse_line
parse_line-IsListed [] out h = absurd h
parse_line-IsListed (b ∷ bs) out (n, _, e) = ground arith

pub listed_line : (u : Bytes) → IsListed u → All IsLineByte u
listed_line [] h = absurd h
listed_line (b ∷ bs) (n, h, e) = h

Above-middle :
    (j u : Bytes) (out rest : UuidSet) → Above j (out ++ (u, tt) ∷ rest) → bytes_lt j u ≡ true
Above-middle j u [] rest h = h.0
Above-middle j u (e ∷ out) rest h = Above-middle j u out rest h.1

-- A key greater than all others goes to the end.
insert_last :
    (u : Bytes) (out rest : UuidSet)
    → Ordered (out ++ (u, tt) ∷ rest)
    → insert u tt out ≡ out ++ (u, tt) ∷ []
unfolding insert
insert_last u [] rest h = refl
insert_last u ((j, v) ∷ out) rest h = ground (
  arith,
  insert_last u out rest h.1,
  Above-middle j u out rest h.0,
  bytes_lt_irrefl u,
  bytes_lt_trans u j u,
  bytes_eq_iff j u,
)

set_nil : (m : UuidSet) → m ++ [] ≡ m
set_nil [] = refl
set_nil (x ∷ m) = ap (◌∷◌ x) (set_nil m)

set_assoc : (out : UuidSet) (e : Bytes × Unit) (m : UuidSet) → (out ++ e ∷ []) ++ m ≡ out ++ e ∷ m
set_assoc [] e m = refl
set_assoc (x ∷ out) e m = ap (◌∷◌ x) (set_assoc out e m)

pub parse_lines-lines_of :
    (out m : UuidSet) (rest : Bytes)
    → AreListed m
    → Ordered (out ++ m)
    → parse_lines [] (lines_of m ++ rest) out ≡ parse_lines [] rest (out ++ m)
unfolding lines_of
parse_lines-lines_of out [] rest h o =
    ap (λ (t : UuidSet). parse_lines [] rest t) (sym (set_nil out))
parse_lines-lines_of out ((u, _) ∷ m) rest h o =
    ap (λ (t : Bytes). parse_lines [] t out) (split_line u 10 (lines_of m) rest)
    ∙ parse_lines-line [] u (lines_of m ++ rest) out (listed_line u h.0)
    ∙ ap (parse_lines [] (lines_of m ++ rest))
        (parse_line-IsListed u out h.0 ∙ insert_last u out m o)
    ∙ parse_lines-lines_of (out ++ (u, tt) ∷ []) m rest h.1
        (subst Ordered (sym (set_assoc out (u, tt) m)) o)
    ∙ ap (parse_lines [] rest) (set_assoc out (u, tt) m)

-- Whether a text has no line feed, as a test that runs.
is_one_line : Bytes → Bool
is_one_line [] = true
is_one_line (b ∷ bs) = not (b == 10) && is_one_line bs

one_line : (u : Bytes) → is_one_line u ≡ true → All IsLineByte u
unfolding is_one_line
one_line [] h = tt
one_line (b ∷ bs) h = (not_ten b bs h, one_line bs (ground arith))
  where
    not_ten : (c : ℕ) (cs : Bytes) → is_one_line (c ∷ cs) ≡ true → c ≢ 10
    not_ten c cs e = ground arith

header_line : All IsLineByte (codes "#P2P-LICENSE-v1")
unfolding is_one_line
header_line = one_line (codes "#P2P-LICENSE-v1") refl

comment_line : (out : UuidSet) → parse_line (codes "#P2P-LICENSE-v1") out ≡ out
unfolding parse_line
comment_line out = refl

parse_plain_text :
    (m : UuidSet) → AreListed m → Ordered m → parse_uuids [] (plain_header ++ lines_of m) ≡ m
unfolding parse_lines
parse_plain_text m h o =
    parse_lines-line [] (codes "#P2P-LICENSE-v1") (lines_of m) [] header_line
    ∙ ap (parse_lines [] (lines_of m)) (comment_line [])
    ∙ ap (λ (t : Bytes). parse_lines [] t []) (sym (append_nil (lines_of m)))
    ∙ parse_lines-lines_of [] m [] h o
    ∙ last_line m
  where
    last_line : (out : UuidSet) → parse_lines [] [] out ≡ out
    last_line out = blank out

not_magic : bytes_eq (codes "#P2P") enc_magic ≡ false
unfolding bytes_eq
not_magic = refl

not_empty : (u : Bytes) → u ≢ [] → is_empty u ≡ false
not_empty [] n = absurd (n refl)
not_empty (b ∷ u) n = refl

-- Without a password, `save` writes a file from which `load` stores the same white list, whatever
-- the list was before, if every uuid fits on a line: no line feed, no `#` in front, no carriage
-- return at the end. The call does not return: it then waits for ever for the mutex that it holds.
pub load-save :
    (s other : LicenseMgr) (salt iv : Bytes)
    → s.path ≢ []
    → s.pass ≡ []
    → AreListed s.uuids
    → Ordered s.uuids
    → (save s salt iv ≡ some (plain_text s))
      × (load other s.path (some (plain_text s))
          ≡ blocked (record other { path = s.path; uuids = s.uuids }))
unfolding save load log_count count_locking
load-save s other salt iv n e h o = (
  rw (e, not_empty s.path n) refl,
  rw not_magic (
      ap (λ (u : UuidSet). blocked (record other { path = s.path; uuids = u }))
        (parse_plain_text s.uuids h o)),
)

-- No call of `load` reports success: one that returns returns false, leaves the list and the
-- password as they were, and was given a file that cannot be opened or one that has the mark of an
-- encrypted file.
pub load_never_succeeds :
    (s s' : LicenseMgr) (path : Bytes) (file : Option Bytes) (ok : Bool)
    → load s path file ≡ returned s' ok
    → (ok ≡ false)
      × (s'.uuids ≡ s.uuids)
      × (s'.pass ≡ s.pass)
      × ((file ≡ none)
          ⊎ ((raw : Bytes) × (file ≡ some raw) × (bytes_eq (take 4 raw) enc_magic ≡ true)))
unfolding load log_count count_locking load_encrypted
load_never_succeeds s s' path none ok e = (ground arith, ground arith, ground arith, inl refl)
load_never_succeeds s s' path (some raw) ok e =
    (ground arith, ground arith, ground arith, inr (raw, refl, ground arith))
