-- ===== src/LicenseMgr/Padding.antt =====
-- server/natserver/src/LicenseMgr.cpp, `load`: what comes after the text of an encrypted file.
use p2p_server.Prelude.{
  ℕ, zero, suc, ◌+◌, ◌≤◌, ◌<◌, ltb, ◌≡◌, ◌≢◌, refl, ap, ◌∙◌, true, false, ◌||◌, [], ◌∷◌, ◌++◌, some,
  Bytes, bytes_eq, length, take, arith, All, replicate, length-append, length-replicate, take_all,
  is_empty, Bool-cases, inl, inr, All-take, All-append, ltb→lt,
}
use p2p_server.Prelude.Maps.{insert, bytes_key}
use p2p_server.Prelude.Unique.{Ordered}
use p2p_server.LicenseMgr.{
  LicenseMgr, UuidSet, enc_magic, plain_header, drop_cr, parse_uuids, decrypt_file, body_of,
  blocked, count_locking, log_count, load_encrypted, load, lines_of,
}
use p2p_server.LicenseMgr.File.{
  IsLineByte, IsListed, AreListed, append_assoc, parse_lines_last, parse_line-IsListed, listed_line,
  parse_lines-lines_of,
}

-- What `load` takes after the text of an encrypted file: the padding and the byte after the buffer.
abbrev pub after_text : ℕ → Bytes
after_text pad = take 16 (replicate pad pad ++ 0 ∷ [])

drop_cr-nul : (xs : Bytes) → drop_cr (xs ++ 0 ∷ []) ≡ xs ++ 0 ∷ []
unfolding drop_cr
drop_cr-nul [] = refl
drop_cr-nul (x ∷ []) = refl
drop_cr-nul (x ∷ y ∷ xs) = ap (◌∷◌ x) (drop_cr-nul (y ∷ xs))

replicate-IsLineByte : (n b : ℕ) → b ≢ 10 → All IsLineByte (replicate n b)
replicate-IsLineByte zero b h = tt
replicate-IsLineByte (suc n) b h = (h, replicate-IsLineByte n b h)

full_block : drop_cr (after_text 16) ≡ after_text 16
unfolding drop_cr
full_block = refl

after_text-drop_cr : (pad : ℕ) → pad ≤ 16 → drop_cr (after_text pad) ≡ after_text pad
after_text-drop_cr pad h = elim (Bool-cases (ltb pad 16)) [
  | inl small ↦
      rw
        (take_all 16 (replicate pad pad ++ 0 ∷ []) (
          omega (
            arith,
            ltb→lt pad 16 small,
            length-append (replicate pad pad) (0 ∷ []),
            length-replicate pad pad,
          )))
        (drop_cr-nul (replicate pad pad))
  | inr big ↦ rw (is_sixteen pad h big) full_block
]
  where
    is_sixteen : (p : ℕ) → p ≤ 16 → ltb p 16 ≡ false → p ≡ 16
    is_sixteen p k b = ground arith

after_text-IsListed : (pad : ℕ) → 0 < pad → pad ≤ 16 → pad ≢ 10 → IsListed (after_text pad)
after_text-IsListed zero p h n = absurd (omega arith)
after_text-IsListed (suc k) p h n = (
  λ e. absurd (omega arith),
  All-take IsLineByte 16 (replicate (suc k) (suc k) ++ 0 ∷ []) (
      All-append IsLineByte (replicate (suc k) (suc k)) (0 ∷ [])
        (replicate-IsLineByte (suc k) (suc k) n) ((λ e. absurd (omega arith)), tt)),
  after_text-drop_cr (suc k) h,
)

take-plus : (xs ys : Bytes) (n : ℕ) → take (length xs + n) (xs ++ ys) ≡ xs ++ take n ys
take-plus [] ys n = rw (zero_plus n) refl
  where
    zero_plus : (k : ℕ) → 0 + k ≡ k
    zero_plus k = omega arith
take-plus (x ∷ xs) ys n = rw (suc_plus (length xs) n) (ap (◌∷◌ x) (take-plus xs ys n))
  where
    suc_plus : (a b : ℕ) → suc a + b ≡ suc (a + b)
    suc_plus a b = omega arith

body_of_plain :
    (text : Bytes) (pad : ℕ)
    → body_of (some (plain_header ++ text ++ replicate pad pad, length plain_header + length text))
      ≡ some (text ++ after_text pad)
unfolding body_of bytes_eq
body_of_plain text pad = rw (not_short (length text)) (
    ap some (
      ap (take (16 + length text)) (append_assoc text (replicate pad pad) (0 ∷ []))
      ∙ ap (λ (n : ℕ). take n (text ++ (replicate pad pad ++ 0 ∷ []))) (plus_comm 16 (length text))
      ∙ take-plus text (replicate pad pad ++ 0 ∷ []) 16))
  where
    not_short : (n : ℕ) → (ltb (16 + n) 16 || false) ≡ false
    not_short n = ground arith

    plus_comm : (a b : ℕ) → a + b ≡ b + a
    plus_comm a b = omega arith

-- For a file with the mark of an encrypted one that decrypts, with the password, to the saved text
-- of a list of uuids that fit on a line and a padding of 1 to 16 bytes other than 10: the text is cut
-- by its whole length from behind the header on, so that the list that `load` stores has one more
-- member than the one saved. It is made of the padding bytes and, if there are fewer than 16, of the
-- NUL byte at the end of the buffer. The call does not return.
pub padding_enters_list :
    (s : LicenseMgr) (path raw : Bytes) (m : UuidSet) (pad : ℕ)
    → bytes_eq (take 4 raw) enc_magic ≡ true
    → 57 ≤ length raw
    → is_empty s.pass ≡ false
    → decrypt_file s.pass raw
      ≡ some (
        plain_header ++ lines_of m ++ replicate pad pad,
        length plain_header + length (lines_of m),
      )
    → AreListed m
    → Ordered m
    → 0 < pad
    → pad ≤ 16
    → pad ≢ 10
    → load s path (some raw)
      ≡ blocked (record s { path = path; uuids = insert (after_text pad) tt m })
unfolding load log_count count_locking load_encrypted
padding_enters_list s path raw m pad magic long some_pass opened h o p k n =
    let listed = after_text-IsListed pad p k n in
    let short : ltb (length raw) 57 ≡ false = ground (arith, long) in
    let list : parse_uuids [] (lines_of m ++ after_text pad) ≡ insert (after_text pad) tt m =
      parse_lines-lines_of [] m (after_text pad) h o
      ∙ parse_lines_last [] (after_text pad) m (listed_line (after_text pad) listed)
      ∙ parse_line-IsListed (after_text pad) m listed in
    rw (magic, short, some_pass, opened, body_of_plain (lines_of m) pad)
      (ap (λ (u : UuidSet). blocked (record s { path = path; uuids = u })) list)
