-- ===== src/Server/Capacity.antt =====
-- An event has room for every client: 64 slots for 64 clients, none of whom is there twice.
use syncscribe.Common.{
  ℕ, zero, suc, ◌+◌, ◌≤◌, ◌<◌, ◌≡◌, ◌≢◌, refl, sym, ap, ◌∙◌, List, [], ◌∷◌, Option, none, some, inl,
  inr, ◌⊎◌, Bool-cases, arith, ◌==◌, ==_iff, ==_self, ==_ne, length, get_elem?, set, All,
  find_index, count, count_of_none, count-pos, Option-cases, get_elem?-set_self, lt_of_get_elem?,
}
use syncscribe.Types.{client_maximum, pos}
use syncscribe.Server.{Event, Client}
use syncscribe.Server.Consumers.{holds, is_null, add_client_to_event}
use syncscribe.Server.Frame.{InRange}
use syncscribe.Server.Valid.{IsValidEvent, occupied, already, full, took, add_client_to_event-Added}

-- The slots of the clients 0 to n - 1.
total : ℕ → List (Option ℕ) → ℕ
total zero xs = 0
total (suc n) xs = total n xs + count (holds n) xs

total-nil : (n : ℕ) → total n [] ≡ 0
unfolding total count
total-nil zero = refl
total-nil (suc n) = ground (arith, total-nil n)

total-none : (n : ℕ) (xs : List (Option ℕ)) → total n (none ∷ xs) ≡ total n xs
unfolding total count
total-none zero xs = refl
total-none (suc n) xs = ground (arith, total-none n xs)

-- A slot counts for its own client, if that is among them.
total-beyond : (n d : ℕ) (xs : List (Option ℕ)) → n ≤ d → total n (some d ∷ xs) ≡ total n xs
unfolding total count
total-beyond zero d xs h = refl
total-beyond (suc n) d xs h =
    ground (arith, total-beyond n d xs (omega arith), ==_ne d n (λ e. omega (arith, e, h)))

same_or_not : (a b : ℕ) → (a ≡ b) ⊎ (a ≢ b)
same_or_not a b = elim (Bool-cases (a == b)) [
  | inl e ↦ inl ((==_iff a b).0 e)
  | inr e ↦ inr (λ k. cc (e, (==_iff a b).1 k))
]

total-within : (n d : ℕ) (xs : List (Option ℕ)) → d < n → total n (some d ∷ xs) ≡ total n xs + 1
unfolding total count
total-within zero d xs h = elim h [ ]
total-within (suc n) d xs h = elim (same_or_not d n) [
  | inl same ↦ ground (arith, ==_iff d n, same, total-beyond n d xs (omega (arith, same)))
  | inr other ↦ ground (arith, total-within n d xs (omega (arith, other, h)), ==_ne d n other)
]

total-occupied :
    (n : ℕ) (xs : List (Option ℕ)) → All (InRange n) xs → total n xs ≡ count occupied xs
unfolding count
total-occupied n [] h = total-nil n
total-occupied n (none ∷ xs) h = ground (arith, total-none n xs, total-occupied n xs h.1)
total-occupied n (some d ∷ xs) h = ground (arith, total-within n d xs h.0, total-occupied n xs h.1)

total-le : (n : ℕ) (xs : List (Option ℕ)) → ((d : ℕ) → count (holds d) xs ≤ 1) → total n xs ≤ n
unfolding total
total-le zero xs once = omega arith
total-le (suc n) xs once = omega (arith, total-le n xs once, once n)

total-lt :
    (n c : ℕ) (xs : List (Option ℕ))
    → ((d : ℕ) → count (holds d) xs ≤ 1)
    → c < n
    → count (holds c) xs ≡ 0
    → total n xs < n
unfolding total
total-lt zero c xs once h gone = elim h [ ]
total-lt (suc n) c xs once h gone = elim (same_or_not c n) [
  | inl same ↦ omega (arith, total-le n xs once, ap (λ k. count (holds k) xs) (sym same) ∙ gone)
  | inr less ↦ omega (arith, total-lt n c xs once (omega (arith, less, h)) gone, once n)
]

full-occupied :
    (xs : List (Option ℕ)) → find_index is_null xs ≡ none → count occupied xs ≡ length xs
unfolding find_index count
full-occupied [] h = refl
full-occupied (none ∷ xs) h = cc
full-occupied (some d ∷ xs) h = ground (arith, full-occupied xs)

-- No client finds a valid event full that it is not in.
never_full :
    (c : ℕ) (e : Event)
    → IsValidEvent e
    → c < client_maximum
    → find_index (holds c) e.consumers ≡ none
    → find_index is_null e.consumers ≢ none
never_full c e v h absent no_room = omega (
  arith,
  total-lt client_maximum c e.consumers v.once h (count_of_none (holds c) e.consumers absent),
  total-occupied client_maximum e.consumers v.ranged,
  full-occupied e.consumers no_room,
  v.slots,
)

present :
    (c i : ℕ) (xs : List (Option ℕ))
    → get_elem? xs i ≡ some (some c)
    → (j : ℕ) × (find_index (holds c) xs ≡ some j)
present c i xs at = elim (Option-cases (find_index (holds c) xs)) [
  | inr found ↦ found
  | inl absent ↦ absurd (
      omega (
        arith,
        count_of_none (holds c) xs absent,
        count-pos (holds c) xs i (some c) at (==_self c),
      ))
]

-- A client that subscribes to a valid event always gets in: the call returns 0 and the client is
-- among the consumers, since the 64 slots suffice for the 64 clients.
pub add_client_to_event_joins :
    (c : ℕ) (e : Event) (client : Client)
    → IsValidEvent e
    → c < client_maximum
    → let r = add_client_to_event c e client in
      (r.0 ≡ pos 0) × ((j : ℕ) × (find_index (holds c) r.1.consumers ≡ some j))
add_client_to_event_joins c e client v h = elim (add_client_to_event-Added c e client) [
  | already i at r ↦ rw r (refl, present c i e.consumers at)
  | full absent no_room r ↦ absurd (never_full c e v h absent no_room)
  | took i absent at r ↦ rw r (
    refl,
    present c i (set e.consumers i (some c))
        (get_elem?-set_self e.consumers i (some c) (lt_of_get_elem? e.consumers i none at)),
  )
]
