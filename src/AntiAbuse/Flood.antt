-- ===== src/AntiAbuse/Flood.antt =====
-- server/natserver/src/AntiAbuse.cpp, `check_flood`: the window of one second.
use p2p_server.Prelude.{
  ℕ, zero, suc, ◌+◌, ◌≤◌, ◌<◌, ◌≡◌, refl, ap, ◌∙◌, Bool, true, false, List, [], ◌∷◌, ◌++◌, some,
  length, arith, length-append, replicate,
}
use p2p_server.Prelude.Maps.{Map, find, contains, put, nat_key, find-put}
use p2p_server.Util.{Sockaddr}
use p2p_server.AntiAbuse.{AntiAbuse, drop_older, arrivals, window, check_flood}

-- Every window holds at most `n` arrivals.
abbrev pub WindowsWithin : ℕ → Map ℕ (List ℕ) → Type 0
WindowsWithin n [] = Unit
WindowsWithin n ((ip, dq) ∷ m) = (length dq ≤ n) × WindowsWithin n m

put-WindowsWithin :
    (n ip : ℕ) (dq : List ℕ) (m : Map ℕ (List ℕ))
    → length dq ≤ n
    → WindowsWithin n m
    → WindowsWithin n (put ip dq m)
unfolding put
put-WindowsWithin n ip dq [] p h = (p, tt)
put-WindowsWithin n ip dq ((j, d) ∷ m) p h = ground (arith, put-WindowsWithin n ip dq m p h.1)

-- `n` datagrams from one address at one time, with the answers.
unfoldable pub burst : ℕ → AntiAbuse → Sockaddr → ℕ → AntiAbuse × List Bool
burst zero s from now = (s, [])
burst (suc n) s from now =
    let (s', flooded) = check_flood s from now in
    let (s'', rest) = burst n s' from now in (s'', flooded ∷ rest)

drop_older-length : (now : ℕ) (dq : List ℕ) → length (drop_older now dq) ≤ length dq
unfolding drop_older
drop_older-length now [] = omega arith
drop_older-length now (t ∷ dq) = ground (arith, drop_older-length now dq)

arrivals-length : (n ip : ℕ) (m : Map ℕ (List ℕ)) → WindowsWithin n m → length (arrivals ip m) ≤ n
unfolding arrivals find
arrivals-length n ip [] h = omega arith
arrivals-length n ip ((j, dq) ∷ m) h = ground (arith, arrivals-length n ip m h.1)

-- No window ever holds more arrivals than the threshold, so an address cannot make the server keep
-- more than that for it.
pub check_flood-WindowsWithin :
    (s : AntiAbuse) (from : Sockaddr) (now : ℕ)
    → WindowsWithin s.flood_threshold s.flood
    → WindowsWithin s.flood_threshold (check_flood s from now).0.flood
unfolding check_flood
check_flood-WindowsWithin s from now h =
    let n = s.flood_threshold in
    ground (
      arith,
      put-WindowsWithin n from.addr [] s.flood (omega arith) h,
      put-WindowsWithin n from.addr (window s from.addr now) s.flood,
    )

drop_older_again :
    (now : ℕ) (dq : List ℕ)
    → drop_older now (drop_older now dq ++ now ∷ []) ≡ drop_older now dq ++ now ∷ []
unfolding drop_older
drop_older_again now [] = ground arith
drop_older_again now (t ∷ dq) = ground (arith, drop_older_again now dq)

-- The arrivals of the current second, before the datagram at hand.
abbrev pub recent : AntiAbuse → ℕ → ℕ → List ℕ
recent s ip now = drop_older now (arrivals ip s.flood)

-- The state after a datagram that passes.
abbrev passed : AntiAbuse → Sockaddr → ℕ → AntiAbuse
passed s from now = record s { flood = put from.addr (window s from.addr now) s.flood }

arrivals-put : (ip : ℕ) (dq : List ℕ) (m : Map ℕ (List ℕ)) → arrivals ip (put ip dq m) ≡ dq
unfolding arrivals
arrivals-put ip dq m = ground (arith, find-put ip ip dq m)

length-window :
    (s : AntiAbuse) (ip now : ℕ) → length (window s ip now) ≡ suc (length (recent s ip now))
unfolding window
length-window s ip now = omega (arith, length-append (recent s ip now) (now ∷ []))

check_flood_pass :
    (s : AntiAbuse) (from : Sockaddr) (now : ℕ)
    → contains from.addr s.ip_black ≡ false
    → length (recent s from.addr now) < s.flood_threshold
    → check_flood s from now ≡ (passed s from now, false)
unfolding check_flood
check_flood_pass s from now free h = ground (arith, length-window s from.addr now)

recent-passed :
    (s : AntiAbuse) (from : Sockaddr) (now : ℕ)
    → recent (passed s from now) from.addr now ≡ window s from.addr now
unfolding window
recent-passed s from now =
    rw (arrivals-put from.addr (recent s from.addr now ++ now ∷ []) s.flood)
      (drop_older_again now (arrivals from.addr s.flood))

-- What a burst that passes leaves.
abbrev Passes : AntiAbuse → ℕ → ℕ → AntiAbuse × List Bool → Type 0
Passes s ip n (s', answers) =
    (answers ≡ replicate n false)
    × (s'.ip_black ≡ s.ip_black)
    × (s'.flood_threshold ≡ s.flood_threshold)
    × (s'.blacklist_sec ≡ s.blacklist_sec)

burst_pass :
    (n : ℕ) (s : AntiAbuse) (from : Sockaddr) (now : ℕ)
    → contains from.addr s.ip_black ≡ false
    → length (recent s from.addr now) + n ≤ s.flood_threshold
    → Passes s from.addr n (burst n s from now)
      × (length (recent (burst n s from now).0 from.addr now) ≡ length (recent s from.addr now) + n)
unfolding burst
burst_pass zero s from now free h = ((refl, refl, refl, refl), omega arith)
burst_pass (suc n) s from now free h =
    let ip = from.addr in
    let size : length (recent (passed s from now) ip now) ≡ suc (length (recent s ip now)) =
      ap length (recent-passed s from now) ∙ length-window s ip now in
    let ((all, black, limit, sec), count) =
      burst_pass n (passed s from now) from now free (omega arith) in
    rw (check_flood_pass s from now free (omega arith))
      ((ap (◌∷◌ false) all, black, limit, sec), omega arith)

check_flood_full :
    (s : AntiAbuse) (from : Sockaddr) (now : ℕ)
    → contains from.addr s.ip_black ≡ false
    → length (recent s from.addr now) ≡ s.flood_threshold
    → ((check_flood s from now).1 ≡ true)
      × (find from.addr (check_flood s from now).0.ip_black ≡ some (now + s.blacklist_sec))
unfolding check_flood
check_flood_full s from now free h = (
  ground (arith, length-window s from.addr now),
  ground (
    arith,
    length-window s from.addr now,
    find-put from.addr from.addr (now + s.blacklist_sec) s.ip_black,
  ),
)

-- An address that is not blacklisted and has sent nothing this second may send as many datagrams in
-- it as the threshold says, and all pass; with the next one it is blacklisted, until the configured
-- time has passed.
pub burst-check_flood :
    (s : AntiAbuse) (from : Sockaddr) (now : ℕ)
    → contains from.addr s.ip_black ≡ false
    → drop_older now (arrivals from.addr s.flood) ≡ []
    → let (s', answers) = burst s.flood_threshold s from now in
      let (s'', flooded) = check_flood s' from now in
      (answers ≡ replicate s.flood_threshold false)
      × (flooded ≡ true)
      × (find from.addr s''.ip_black ≡ some (now + s.blacklist_sec))
burst-check_flood s from now free quiet =
    let n = s.flood_threshold in
    let ((all, black, limit, sec), count) = burst_pass n s from now free (rw quiet (omega arith)) in
    let s' = (burst n s from now).0 in
    let (flooded, until) =
      check_flood_full s' from now (rw black free) (count ∙ rw quiet (omega arith)) in
    (all, flooded, until ∙ ap (λ (t : ℕ). some (now + t)) sec)
