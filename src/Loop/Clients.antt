-- ===== src/Loop/Clients.antt =====
-- RuruLoop.cpp: `FindClientByAddress` and `ScanClientCacheData`.
use ruru.Base.{
  ℕ, zero, suc, ◌+◌, ◌-◌, ◌%◌, ◌^◌, ◌<◌, ◌≡◌, refl, ap, ◌∙◌, sym, ◌⊎◌, inl, inr, Bool, true, false,
  List, [], ◌∷◌, ◌++◌, Option, none, some, if◌then◌else◌, arith, get_elem?, append-nil,
  append_assoc, Bool-cases, if-true, if-false, add32,
}
use mathlib.Core.Path.{subst}
use mathlib.Core.Option.{some-injective}
use ruru.Event.{Event, Address}
use ruru.Client.{Client}
use ruru.Loop.{
  Loop, has_address, find_from, find_client_by_address, has_cache, cache_event, scan_from,
  is_skipped, scan_client_cache_data,
}

module _ {S : Type 0} where
  -- What a search from index `i` has found.
  abbrev pub Found : Address → ℕ → List (Client S) → Option ℕ → Type 0
  Found a i cs none = (k : ℕ) (c : Client S) → get_elem? cs k ≡ some c → has_address a c ≡ false
  Found a i cs (some j) =
      (k : ℕ) × (j ≡ i + k)
      × ((c : Client S) × (get_elem? cs k ≡ some c) × (has_address a c ≡ true))
      × ((k' : ℕ) (c : Client S) → k' < k → get_elem? cs k' ≡ some c → has_address a c ≡ false)

  Found-cons :
      (a : Address) (i : ℕ) (c : Client S) (cs : List (Client S)) (r : Option ℕ)
      → has_address a c ≡ false
      → Found a (suc i) cs r
      → Found a i (c ∷ cs) r
  Found-cons a i c cs none miss f = absent
    where
      absent : (k : ℕ) (d : Client S) → get_elem? (c ∷ cs) k ≡ some d → has_address a d ≡ false
      absent zero d e = subst (λ x. has_address a x ≡ false) (some-injective c d e) miss
      absent (suc k) d e = f k d e
  Found-cons a i c cs (some j) miss (k, at, hit, before) = (suc k, omega arith, hit, earlier)
    where
      earlier :
          (k' : ℕ) (d : Client S)
          → k' < suc k
          → get_elem? (c ∷ cs) k' ≡ some d
          → has_address a d ≡ false
      earlier zero d lt e = subst (λ x. has_address a x ≡ false) (some-injective c d e) miss
      earlier (suc k') d lt e = before k' d (omega arith) e

  absent_nil :
      (a : Address) (k : ℕ) (c : Client S) → get_elem? [] k ≡ some c → has_address a c ≡ false
  absent_nil a k c h = cc

  find_from-Found : (a : Address) (i : ℕ) (cs : List (Client S)) → Found a i cs (find_from a i cs)
  unfolding find_from
  find_from-Found a i [] = absent_nil a
  find_from-Found a i (c ∷ cs) = elim (Bool-cases (has_address a c)) [
    | inl hit ↦
        let first : Found a i (c ∷ cs) (some i) =
          (0, omega arith, (c, refl, hit), λ k d lt. absurd (omega arith)) in
        subst (Found a i (c ∷ cs)) (sym (if-true (some i) (find_from a (suc i) cs) hit)) first
    | inr miss ↦
        subst (Found a i (c ∷ cs)) (sym (if-false (some i) (find_from a (suc i) cs) miss))
          (Found-cons a i c cs (find_from a (suc i) cs) miss (find_from-Found a (suc i) cs))
  ]

  -- One event for each client with cached data, in the order of the clients.
  abbrev pub cache_events : ℕ → List (Client S) → List Event
  cache_events i [] = []
  cache_events i (c ∷ cs) =
      if has_cache c then cache_event i ∷ cache_events (suc i) cs else cache_events (suc i) cs

  abbrev pub any_cache : List (Client S) → Bool
  any_cache [] = false
  any_cache (c ∷ cs) = if has_cache c then true else any_cache cs

  abbrev scanned : ℕ → List (Client S) → Bool → List Event → Bool × List Event
  scanned i cs have que = ((if have then true else any_cache cs), que ++ cache_events i cs)

  scan_from_lem :
      (i : ℕ) (cs : List (Client S)) (have : Bool) (que : List Event)
      → scan_from i cs have que ≡ scanned i cs have que
  unfolding scan_from
  scan_from_lem i [] have que = ground (arith, append-nil que)
  scan_from_lem i (c ∷ cs) have que = ground (
    arith,
    scan_from_lem (suc i) cs (if has_cache c then true else have)
        (if has_cache c then que ++ cache_event i ∷ [] else que),
    append_assoc que (cache_event i ∷ []) (cache_events (suc i) cs),
  )

module _ {S L : Type 0} where
  -- `FindClientByAddress` returns the first client with the address, and null exactly if none has it.
  pub find_client_by_address-Found :
      (l : Loop S L) (a : Address) → Found a 0 l.client_mgr (find_client_by_address l a)
  unfolding find_client_by_address
  find_client_by_address-Found l a = find_from-Found a 0 l.client_mgr

  pub scan_client_cache_data_lem :
      (l : Loop S L)
      → ((is_skipped l.count ≡ true)
          × (scan_client_cache_data l ≡ (false, record l { count = add32 l.count 1 })))
        ⊎ ((is_skipped l.count ≡ false)
            × (scan_client_cache_data l ≡ (
              any_cache l.client_mgr,
              record l { count = add32 l.count 1; que = l.que ++ cache_events 0 l.client_mgr },
            )))
  unfolding scan_client_cache_data
  scan_client_cache_data_lem l = elim (Bool-cases (is_skipped l.count)) [
    | inl skip ↦ inl (skip, if-true _ _ skip)
    | inr scan ↦ inr (
      scan,
      if-false _ _ scan
          ∙ ap (λ (r : Bool × List Event). (r.0, record l { count = add32 l.count 1; que = r.1 }))
              (scan_from_lem 0 l.client_mgr false l.que),
    )
  ]

-- While the count has not wrapped, one of the next 100 calls of `ScanClientCacheData` scans.
pub scan_within_roll :
    (count : ℕ)
    → count + 100 < 2 ^ 31
    → (k : ℕ) × (k < 100) × (is_skipped ((count + k) % 2 ^ 32) ≡ false)
scan_within_roll count h = let k = (100 - count % 100) % 100 in (k, omega arith, ground arith)
