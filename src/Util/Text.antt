-- ===== src/Util/Text.antt =====
-- `inet_ntop` and `inet_pton`: the text of an address is read back.
use p2p_server.Prelude.{
  ℕ, ◌+◌, ◌-◌, ◌*◌, ◌/◌, ◌%◌, ◌^◌, ◌<◌, ◌≤◌, ◌≡◌, ◌≢◌, refl, ap, sym, ◌∙◌, ltb, leb, ◌==◌, not,
  ◌&&◌, if◌then◌else◌, Bool, true, false, Bool-cases, inl, inr, Bytes, some, [], ◌∷◌, ◌++◌, length,
  length-append, All, All-append, arith,
}
use mathlib.Core.List.{append_assoc, append-nil}
use p2p_server.Util.{decimal_octet, inet_ntop, pton_loop, inet_pton}

-- A digit that makes no octet beyond 255 and follows no leading zero.
digit :
    (d w : ℕ) (cs : Bytes) (saw : Bool) (k v total place : ℕ)
    → d < 10
    → (saw && v == 0) ≡ false
    → w ≡ v * 10 + d
    → w ≤ 255
    → (not saw && k == 4) ≡ false
    → pton_loop ((48 + d) ∷ cs) saw k v total place
      ≡ pton_loop cs true (if saw then k else k + 1) w total place
unfolding pton_loop
digit d w cs saw k v total place h n q m o =
    let a : leb 48 (48 + d) ≡ true = ground arith in
    let b : leb (48 + d) 57 ≡ true = ground arith in
    let c : 48 + d - 48 ≡ d = omega arith in
    let e : ltb 255 w ≡ false = ground arith in rw (a, b, c, n, ← q, e, o) refl

number :
    (n k total place : ℕ) (cs : Bytes)
    → n < 256
    → k ≤ 3
    → pton_loop (decimal_octet n ++ cs) false k 0 total place
      ≡ pton_loop cs true (k + 1) n total place
unfolding decimal_octet
number n k total place cs h o = elim (Bool-cases (ltb n 10)) [
  | inl e ↦ rw (e) (
      digit n n cs false k 0 total place (ground (arith, e)) refl (omega arith) (omega arith)
        (ground (arith, o)))
  | inr e ↦ elim (Bool-cases (ltb n 100)) [
    | inl f ↦
        let v = n / 10 in
        rw (e, f)
          (digit v v ((48 + n % 10) ∷ cs) false k 0 total place (ground (arith, f)) refl
              (omega arith) (omega arith) (ground (arith, o))
            ∙ digit (n % 10) n cs true (k + 1) v total place (omega arith) (ground (arith, e))
                (omega arith) (omega arith) refl)
    | inr f ↦
        let u = n / 100 in
        let v = n / 10 in
        rw (e, f)
          (digit u u ((48 + n / 10 % 10) ∷ (48 + n % 10) ∷ cs) false k 0 total place (omega arith)
              refl (omega arith) (omega arith) (ground (arith, o))
            ∙ digit (n / 10 % 10) v ((48 + n % 10) ∷ cs) true (k + 1) u total place (omega arith)
                (ground (arith, f)) (omega arith) (omega arith) refl
            ∙ digit (n % 10) n cs true (k + 1) v total place (omega arith) (ground (arith, f))
                (omega arith) (omega arith) refl)
  ]
]

dot :
    (cs : Bytes) (k v total place : ℕ)
    → k ≤ 3
    → pton_loop (46 ∷ cs) true k v total place
      ≡ pton_loop cs false k 0 (total + v * place) (place * 256)
unfolding pton_loop
dot cs k v total place o = let f : (k == 4) ≡ false = ground arith in rw (f) refl

-- An octet with the dot behind it.
octet :
    (n k total place : ℕ) (cs : Bytes)
    → n < 256
    → k ≤ 2
    → pton_loop (decimal_octet n ++ 46 ∷ cs) false k 0 total place
      ≡ pton_loop cs false (k + 1) 0 (total + n * place) (place * 256)
octet n k total place cs h o =
    number n k total place (46 ∷ cs) h (omega arith) ∙ dot cs (k + 1) n total place (omega arith)

four :
    (p q r t : Bytes)
    → p ++ 46 ∷ q ++ 46 ∷ r ++ 46 ∷ t ≡ p ++ 46 ∷ (q ++ 46 ∷ (r ++ 46 ∷ (t ++ [])))
four p q r t =
    append_assoc (p ++ 46 ∷ q) (46 ∷ r) (46 ∷ t)
    ∙ append_assoc p (46 ∷ q) (46 ∷ (r ++ 46 ∷ t))
    ∙ ap (λ (x : Bytes). p ++ 46 ∷ (q ++ 46 ∷ (r ++ 46 ∷ x))) (sym (append-nil t))

-- `inet_pton` reads the text of `inet_ntop` as the same address.
pub inet_pton-inet_ntop : (a : ℕ) → a < 2 ^ 32 → inet_pton (inet_ntop a) ≡ some a
unfolding inet_pton inet_ntop pton_loop
inet_pton-inet_ntop a h =
    let p = decimal_octet (a % 256) in
    let q = decimal_octet (a / 2 ^ 8 % 256) in
    let r = decimal_octet (a / 2 ^ 16 % 256) in
    let t = decimal_octet (a / 2 ^ 24 % 256) in
    let sum : 0
          + a % 256 * 1
          + a / 2 ^ 8 % 256 * 256
          + a / 2 ^ 16 % 256 * 65536
          + a / 2 ^ 24 % 256 * 16777216
        ≡ a =
      omega arith in
    ap (λ (text : Bytes). pton_loop text false 0 0 0 1) (four p q r t)
    ∙ octet (a % 256) 0 0 1 _ (omega arith) (omega arith)
    ∙ octet (a / 2 ^ 8 % 256) 1 _ 256 _ (omega arith) (omega arith)
    ∙ octet (a / 2 ^ 16 % 256) 2 _ 65536 _ (omega arith) (omega arith)
    ∙ number (a / 2 ^ 24 % 256) 3 _ 16777216 [] (omega arith) (omega arith)
    ∙ ap some sum

decimal_octet-text :
    (n : ℕ) → n < 256 → (length (decimal_octet n) ≤ 3) × All (λ b. b ≢ 0) (decimal_octet n)
unfolding decimal_octet
decimal_octet-text n h = elim (Bool-cases (ltb n 10)) [
  | inl e ↦ rw (e) (omega arith, (λ q. absurd (omega (arith, q)), tt))
  | inr e ↦ elim (Bool-cases (ltb n 100)) [
    | inl f ↦
        rw (e, f)
          (omega arith, (λ q. absurd (omega (arith, q)), (λ q. absurd (omega (arith, q)), tt)))
    | inr f ↦
        rw (e, f)
          (
            omega arith,
            (
              λ q. absurd (omega (arith, q)),
              (λ q. absurd (omega (arith, q)), (λ q. absurd (omega (arith, q)), tt)),
            ),
          )
  ]
]

joined :
    (p q : Bytes) (m n : ℕ)
    → (length p ≤ m) × All (λ b. b ≢ 0) p
    → (length q ≤ n) × All (λ b. b ≢ 0) q
    → (length (p ++ 46 ∷ q) ≤ m + (n + 1)) × All (λ b. b ≢ 0) (p ++ 46 ∷ q)
joined p q m n (a, b) (c, d) = (
  omega (arith, length-append p (46 ∷ q)),
  All-append (λ b. b ≢ 0) p (46 ∷ q) b (λ e. absurd (omega (arith, e)), d),
)

-- The text of an address has at most 15 characters.
pub inet_ntop-text : (a : ℕ) → (length (inet_ntop a) ≤ 15) × All (λ b. b ≢ 0) (inet_ntop a)
unfolding inet_ntop
inet_ntop-text a =
    let p = decimal_octet (a % 256) in
    let q = decimal_octet (a / 2 ^ 8 % 256) in
    let r = decimal_octet (a / 2 ^ 16 % 256) in
    let t = decimal_octet (a / 2 ^ 24 % 256) in
    joined (p ++ 46 ∷ q ++ 46 ∷ r) t 11 3
      (joined (p ++ 46 ∷ q) r 7 3
        (joined p q 3 3 (decimal_octet-text (a % 256) (omega arith))
          (decimal_octet-text (a / 2 ^ 8 % 256) (omega arith)))
        (decimal_octet-text (a / 2 ^ 16 % 256) (omega arith)))
      (decimal_octet-text (a / 2 ^ 24 % 256) (omega arith))
