-- ===== src/ArpCache/Entries.antt =====
-- The table of mappings: lookups after an insertion and after the clean-up.
use computer_networking.Base.{
  ℕ, ◌-◌, ◌≤◌, ◌≡◌, refl, sym, ==→eq, ◌≢◌, inl, inr, Bool, true, false, not, ◌&&◌, ◌||◌, Option,
  none, some, List, [], ◌∷◌, ◌++◌, map, All, arith, ltb, ◌==◌, if◌then◌else◌, Bool-cases,
}
use computer_networking.State.{ArpEntry, ArpCache}
use computer_networking.ArpCache.{
  lookup_loop, lookup, fill_slot, insert, expire_entry, expire, arpcache_to,
}

abbrev pub holds : ℕ → ArpEntry → Bool
holds ip e = e.valid && e.ip == ip

abbrev pub NoMatch : ℕ → List ArpEntry → Type 0
NoMatch ip = All λ e. holds ip e ≡ false

-- Is a slot free?
unfoldable pub has_room : List ArpEntry → Bool
has_room [] = false
has_room (e ∷ es) = not e.valid || has_room es

abbrev pub new_entry : ℕ → List ℕ → ℕ → ArpEntry
new_entry now mac ip = record { mac = mac; ip = ip; added = now; valid = true }

lookup_loop-NoMatch :
    (ip : ℕ) (f : Option ArpEntry) (es : List ArpEntry) → NoMatch ip es → lookup_loop ip f es ≡ f
unfolding lookup_loop
lookup_loop-NoMatch ip f [] h = refl
lookup_loop-NoMatch ip f (e ∷ es) h = rw h.0 (lookup_loop-NoMatch ip f es h.1)

lookup_loop-some : (ip : ℕ) (x : ArpEntry) (es : List ArpEntry) → lookup_loop ip (some x) es ≢ none
unfolding lookup_loop
lookup_loop-some ip x [] h = cc
lookup_loop-some ip x (e ∷ es) h =
    ground (arith, lookup_loop-some ip x es, lookup_loop-some ip e es)

lookup_loop-none : (ip : ℕ) (es : List ArpEntry) → lookup_loop ip none es ≡ none → NoMatch ip es
unfolding lookup_loop
lookup_loop-none ip [] h = tt
lookup_loop-none ip (e ∷ es) h = ground (arith, lookup_loop-some ip e es, lookup_loop-none ip es)

-- The last match wins.
lookup_loop-last :
    (ip : ℕ) (f : Option ArpEntry) (front : List ArpEntry) (e : ArpEntry) (back : List ArpEntry)
    → holds ip e ≡ true
    → NoMatch ip back
    → lookup_loop ip f (front ++ e ∷ back) ≡ some e
unfolding lookup_loop
lookup_loop-last ip f [] e back h n = rw (h, lookup_loop) (lookup_loop-NoMatch ip (some e) back n)
lookup_loop-last ip f (x ∷ front) e back h n =
    lookup_loop-last ip (if holds ip x then some x else f) front e back h n

fill_slot-fresh :
    (now : ℕ) (mac : List ℕ) (ip : ℕ) (es : List ArpEntry)
    → NoMatch ip es
    → has_room es ≡ true
    → lookup_loop ip none (fill_slot (new_entry now mac ip) es) ≡ some (new_entry now mac ip)
unfolding lookup_loop fill_slot has_room
fill_slot-fresh now mac ip [] n r = cc
fill_slot-fresh now mac ip (e ∷ es) n r = ground (
  arith,
  fill_slot-fresh now mac ip es n.1,
  lookup_loop-NoMatch ip (some (new_entry now mac ip)) es n.1,
)

fill_slot-other :
    (j : ℕ) (new : ArpEntry) (f : Option ArpEntry) (es : List ArpEntry)
    → new.ip ≢ j
    → lookup_loop j f (fill_slot new es) ≡ lookup_loop j f es
unfolding lookup_loop fill_slot
fill_slot-other j new f [] n = refl
fill_slot-other j new f (e ∷ es) n =
    ground (arith, fill_slot-other j new (if holds j e then some e else f) es)

fill_slot-front :
    (new : ArpEntry) (front back : List ArpEntry)
    → has_room front ≡ true
    → fill_slot new (front ++ back) ≡ fill_slot new front ++ back
unfolding fill_slot has_room
fill_slot-front new [] back r = cc
fill_slot-front new (e ∷ front) back r = ground (arith, fill_slot-front new front back)

fill_slot-full : (new : ArpEntry) (es : List ArpEntry) → has_room es ≡ false → fill_slot new es ≡ es
unfolding fill_slot has_room
fill_slot-full new [] r = refl
fill_slot-full new (e ∷ es) r = ground (arith, fill_slot-full new es)

module _ (now : ℕ) (mac : List ℕ) (ip : ℕ) (c : ArpCache) where
  -- If the address has no mapping and a slot is free, a lookup finds the inserted mapping.
  pub lookup-insert :
      lookup ip c ≡ none
      → has_room c.entries ≡ true
      → lookup ip (insert now mac ip c).1 ≡ some (new_entry now mac ip)
  unfolding lookup insert
  lookup-insert n r = fill_slot-fresh now mac ip c.entries (lookup_loop-none ip c.entries n) r

  -- An insertion changes the lookup of no other address.
  pub lookup-insert_other : (j : ℕ) → ip ≢ j → lookup j (insert now mac ip c).1 ≡ lookup j c
  unfolding lookup insert
  lookup-insert_other j n = fill_slot-other j (new_entry now mac ip) none c.entries n

  -- With no slot free the mapping is dropped, and every lookup is as before.
  pub lookup-insert_full :
      (j : ℕ) → has_room c.entries ≡ false → lookup j (insert now mac ip c).1 ≡ lookup j c
  unfolding lookup insert
  lookup-insert_full j r = rw (fill_slot-full (new_entry now mac ip) c.entries r)

  -- An insertion of an address that has no mapping changes the table, as its lookups see it, at this
  -- address only: there the mapping is found if a slot was free; with no slot free it is dropped.
  pub lookup-insert_map :
      lookup ip c ≡ none
      → (j : ℕ)
      → lookup j (insert now mac ip c).1
        ≡ (if ip == j && has_room c.entries then some (new_entry now mac ip) else lookup j c)
  lookup-insert_map n j = elim (Bool-cases (ip == j)) [
    | inl same ↦ elim (Bool-cases (has_room c.entries)) [
      | inl room ↦ rw (same, room, sym (==→eq ip j same)) (lookup-insert n room)
      | inr full ↦ rw (same, full) (lookup-insert_full j full)
    ]
    | inr other ↦ rw other (lookup-insert_other j (λ e. ground (arith, other)))
  ]

  -- If an older mapping of the address stands behind a free slot, and is the last one, a lookup
  -- still gives the older one.
  pub lookup-insert_stale :
      (front : List ArpEntry) (old : ArpEntry) (back : List ArpEntry)
      → c.entries ≡ front ++ old ∷ back
      → has_room front ≡ true
      → holds ip old ≡ true
      → NoMatch ip back
      → lookup ip (insert now mac ip c).1 ≡ some old
  unfolding lookup insert
  lookup-insert_stale front old back e r h n =
      rw (e, fill_slot-front (new_entry now mac ip) front (old ∷ back) r)
        (lookup_loop-last ip none (fill_slot (new_entry now mac ip) front) old back h n)

-- A mapping is fresh at a time if it is at most 15 seconds old.
abbrev pub IsFresh : ℕ → ArpEntry → Type 0
IsFresh t e = t - e.added ≤ arpcache_to

abbrev pub FreshHit : ℕ → ℕ → Option ArpEntry → Type 0
FreshHit t ip none = Unit
FreshHit t ip (some e) = (e.valid ≡ true) × (e.ip ≡ ip) × IsFresh t e

hit_expired :
    (t ip : ℕ) (f : Option ArpEntry) (e : ArpEntry)
    → FreshHit t ip f
    → FreshHit t ip (if holds ip (expire_entry t e) then some (expire_entry t e) else f)
unfolding expire_entry
hit_expired t ip f e h = elim (Bool-cases (e.valid && ltb arpcache_to (t - e.added))) [
  | inl old ↦ rw old h
  | inr new ↦ rw new (elim (Bool-cases (holds ip e)) [
    | inl hit ↦ rw hit (ground arith, ground arith, ground arith)
    | inr miss ↦ rw miss h
  ])
]

expire-FreshHit :
    (t ip : ℕ) (f : Option ArpEntry) (es : List ArpEntry)
    → FreshHit t ip f
    → FreshHit t ip (lookup_loop ip f (map (expire_entry t) es))
unfolding lookup_loop expire_entry
expire-FreshHit t ip f [] h = h
expire-FreshHit t ip f (e ∷ es) h =
    expire-FreshHit t ip (if holds ip (expire_entry t e) then some (expire_entry t e) else f) es
      (hit_expired t ip f e h)

expire-keeps :
    (t ip : ℕ) (f : Option ArpEntry) (es : List ArpEntry) (e : ArpEntry)
    → lookup_loop ip f es ≡ some e
    → IsFresh t e
    → (g : Option ArpEntry) → (f ≡ some e → g ≡ some e)
    → lookup_loop ip g (map (expire_entry t) es) ≡ some e
unfolding lookup_loop expire_entry
expire-keeps t ip f [] e h r g k = k h
expire-keeps t ip f (x ∷ es) e h r g k =
    expire-keeps t ip (if holds ip x then some x else f) es e h r
      (if holds ip (expire_entry t x) then some (expire_entry t x) else g) (λ p. ground (arith, k))

module _ (t ip : ℕ) (c : ArpCache) where
  -- After the clean-up at a time every mapping that a lookup finds is for the address, and at most
  -- 15 seconds old.
  pub lookup-expire : FreshHit t ip (lookup ip (expire t c))
  unfolding lookup expire
  lookup-expire = expire-FreshHit t ip none c.entries tt

  -- The clean-up keeps the mapping that a lookup finds, if it is at most 15 seconds old.
  pub lookup-expire_fresh :
      (e : ArpEntry) → lookup ip c ≡ some e → IsFresh t e → lookup ip (expire t c) ≡ some e
  unfolding lookup expire
  lookup-expire_fresh e h r = expire-keeps t ip none c.entries e h r none (λ p. p)
