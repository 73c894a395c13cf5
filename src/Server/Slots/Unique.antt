-- ===== src/Server/Slots/Unique.antt =====
-- The count of events and the uniqueness of their identifiers.
use syncscribe.Common.{
  inl, inr, ℕ, List, [], ◌∷◌, ◌+◌, ◌≤◌, ◌≡◌, refl, ap, ◌∙◌, subst, true, false, Bool, not, ◌==◌,
  ◌&&◌, arith, Option, none, some, length, get_elem?, set, find_index, count, inc32, dec32,
  Bool-cases, find_index-set, count-set, count-le-length, count-pos, count_of_none,
  find_index_of_count_zero, length-set, lt_of_get_elem?,
}
use syncscribe.Types.{SyncsId, event_maximum}
use syncscribe.Id.{id_word, is_free, idcmp, mark_free}
use syncscribe.Id.Compare.{idcmp_self, is_free-mark_free, idcmp-is_free}
use syncscribe.Server.{Event, Server}
use syncscribe.Server.Slots.{
  create_event, find_event, free_event, event_init, mark_event_free, free_slot, live_slot, has_id,
}
use syncscribe.Server.Slots.Cases.{
  with_event, no_space, created, create_event-Created, unknown, freed, free_event-Freed,
}

-- `event_count` counts the events in use, and no two of them have an identifier in common.
pub record IsTable (s : Server) : Type 0 where
  pub size : length s.events ≡ event_maximum
  pub counted : s.event_count ≡ count live_slot s.events
  pub unique : (id : SyncsId) → is_free id ≡ false → count (has_id id) s.events ≤ 1

-- The comparison with an identifier of the words given.
words : SyncsId → ℕ → ℕ → ℕ → ℕ → Bool
words x p q r t =
    (id_word 0 x == p) && (id_word 1 x == q) && (id_word 2 x == r) && (id_word 3 x == t)

split :
    (a b : SyncsId)
    → idcmp a b ≡ true
    → (id_word 0 a ≡ id_word 0 b)
      × (id_word 1 a ≡ id_word 1 b)
      × (id_word 2 a ≡ id_word 2 b)
      × (id_word 3 a ≡ id_word 3 b)
unfolding idcmp
split a b h = ground arith

idcmp_alike : (x a b : SyncsId) → idcmp a b ≡ true → idcmp x a ≡ idcmp x b
unfolding idcmp words
idcmp_alike x a b h = let e = split a b h in λ i. words x (e.0 i) (e.1 i) (e.2 i) (e.3 i)

-- An identifier in use is not that of a free slot.
pub free_differs : (a b : SyncsId) → is_free a ≡ true → is_free b ≡ false → idcmp a b ≡ false
free_differs a b h k = elim (Bool-cases (idcmp a b)) [
  | inr other ↦ other
  | inl same ↦ absurd (ground (arith, h, k, idcmp-is_free a b same))
]

module _ (id : SyncsId) (s : Server) (used : is_free id ≡ false) (v : IsTable s) where
  few : count live_slot s.events ≤ event_maximum
  few = omega (arith, count-le-length live_slot s.events, v.size)

  put_new-IsTable :
      (i : ℕ) (old : Event)
      → find_event s id ≡ none
      → get_elem? s.events i ≡ some old
      → is_free old.id ≡ true
      → IsTable (with_event s i (event_init id old) (inc32 s.event_count))
        × (find_event (with_event s i (event_init id old) (inc32 s.event_count)) id ≡ some i)
  unfolding find_event event_init
  put_new-IsTable i old absent at free =
      let new = event_init id old in
      (
        record {
          size = length-set s.events i new ∙ v.size;
          counted =
              ground (arith, count-set live_slot s.events i old new at, v.counted, few, free, used);
          unique = λ id' used'. one_more id' used';
        },
        find_index-set (has_id id) s.events i new absent (idcmp_self id)
            (lt_of_get_elem? s.events i old at),
      )
    where
      one_more :
          (id' : SyncsId)
          → is_free id' ≡ false
          → count (has_id id') (set s.events i (event_init id old)) ≤ 1
      one_more id' used' =
          let differs : has_id id' old ≡ false = free_differs old.id id' free used' in
          elim (Bool-cases (idcmp id id')) [
            | inr other ↦ ground (
              arith,
              count-set (has_id id') s.events i old (event_init id old) at,
              v.unique id' used',
              differs,
              other,
            )
            | inl same ↦
                let none_before : count (has_id id') s.events ≡ 0 =
                  subst (λ p. count p s.events ≡ 0) (λ j e. idcmp_alike e.id id id' same j)
                    (count_of_none (has_id id) s.events absent) in
                ground (
                  arith,
                  count-set (has_id id') s.events i old (event_init id old) at,
                  none_before,
                  differs,
                  same,
                )
          ]

  mark-IsTable :
      (i : ℕ) (e : Event)
      → find_event s id ≡ some i
      → get_elem? s.events i ≡ some e
      → idcmp e.id id ≡ true
      → IsTable (with_event s i (mark_event_free e) (dec32 s.event_count))
        × (find_event (with_event s i (mark_event_free e) (dec32 s.event_count)) id ≡ none)
  unfolding find_event
  mark-IsTable i e found at same =
      let live : is_free e.id ≡ false = idcmp-is_free e.id id same ∙ used in
      let marked = is_free-mark_free e.id in
      (
        record {
          size = length-set s.events i (mark_event_free e) ∙ v.size;
          counted = ground (
            arith,
            count-set live_slot s.events i e (mark_event_free e) at,
            count-pos live_slot s.events i e at (ap not live),
            v.counted,
            few,
            live,
            marked,
          );
          unique = λ id' used'. ground (
            arith,
            count-set (has_id id') s.events i e (mark_event_free e) at,
            v.unique id' used',
            free_differs (mark_free e.id) id' marked used',
          );
        },
        find_index_of_count_zero (has_id id) (set s.events i (mark_event_free e)) (
            ground (
              arith,
              count-set (has_id id) s.events i e (mark_event_free e) at,
              count-pos (has_id id) s.events i e at same,
              v.unique id used,
              free_differs (mark_free e.id) id marked used,
              same,
            )),
      )

-- What creating an event gives: nothing, of a full table, or an event that is found.
pub data Made (s : Server) (id : SyncsId) : Option (ℕ × Server) → Type 0 where
  full : s.event_count ≡ event_maximum → Made s id none
  made :
      (i : ℕ) (t : Server)
      → IsTable t
      → find_event t id ≡ some i
      → t.event_count ≡ s.event_count + 1
      → Made s id (some (i, t))

all_live : (xs : List Event) → find_index free_slot xs ≡ none → count live_slot xs ≡ length xs
unfolding find_index count
all_live [] h = refl
all_live (x ∷ xs) h = ground (arith, all_live xs)

-- In a table whose count is right and whose identifiers are unique, an event that is created is found under its identifier, the count of events is one more, and no
-- identifier in use stands twice in the table; creating fails only if all 256 events are in use. This
-- is for an identifier that is not in the table and not the mark of a free slot.
pub create_event-Made :
    (id : SyncsId) (s : Server)
    → is_free id ≡ false
    → IsTable s
    → find_event s id ≡ none
    → Made s id (create_event s id)
create_event-Made id s used v absent = elim (create_event-Created s id) [
  | no_space full_table r ↦
      rw r (full (omega (arith, v.counted, all_live s.events full_table, v.size)))
  | created i old at free r ↦
      let p = put_new-IsTable id s used v i old absent at free in
      rw r (
        made i (with_event s i (event_init id old) (inc32 s.event_count)) p.0 p.1
          (ground (arith, v.counted, count_room i old at free)))
]
  where
    count_room :
        (i : ℕ) (old : Event)
        → get_elem? s.events i ≡ some old
        → is_free old.id ≡ true
        → count live_slot s.events ≤ event_maximum
    count_room i old at free = few id s used v

-- In a table whose count is right and whose identifiers are unique, after an event is freed its identifier is not found, the table counts the events in use, and no
-- identifier stands twice in it. This is for an identifier that is not the mark of a free slot.
pub free_event-IsTable :
    (id : SyncsId) (s : Server)
    → is_free id ≡ false
    → IsTable s
    → IsTable (free_event s id) × (find_event (free_event s id) id ≡ none)
free_event-IsTable id s used v = elim (free_event-Freed s id) [
  | unknown absent r ↦ rw r (v, absent)
  | freed i e found at same r ↦ rw r (mark-IsTable id s used v i e found at same)
]
