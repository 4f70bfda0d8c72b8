-- ===== src/IdMap/Slots.antt =====
-- Where the entries of an `IdMap` stand: an entry with `psl` n is n slots past that of its hash, and
-- no entry before it is nearer to its own slot (infra/container/id_map.hpp).
use toy_language.Base.{
  ◌==◌, length, ℕ, suc, ◌+◌, ◌/◌, ◌^◌, ◌≤◌, ◌<◌, bit_or, ◌≡◌, sym, ◌∙◌, ◌≢◌, true, false, List,
  arith,
}
use mathlib.Core.Bool.{true≢false}
use native.Mathlib.Decide.{dec_lt}
use toy_language.Base.Ring.{walked, walked_onto, gap}
use toy_language.Base.Bits.{bit_or_digit}
use toy_language.IdMap.{
  LookupEntry, max_psl, is_empty_lookup, create_lookup, lookup_at, next_slot, further, first_slot,
}

-- The slot is taken, by an entry that is at least `q` slots from that of its hash.
abbrev pub Held : List LookupEntry → ℕ → ℕ → Type 0
Held lookups j q = (is_empty_lookup (lookup_at lookups j) ≡ false) × (q ≤ (lookup_at lookups j).psl)

-- The place of an entry, for the hash of every value.
pub record IsAt (commit : ℕ) (hash : ℕ → ℕ) (lookups : List LookupEntry) (entry : LookupEntry)
    (i : ℕ) : Type 0 where
  pub print : entry.hash_fingerprint ≡ (create_lookup (hash entry.data_id)).hash_fingerprint
  pub reach : entry.psl ≤ max_psl
  pub short : entry.psl < commit
  pub place : i ≡ walked commit (first_slot commit (hash entry.data_id)) entry.psl
  pub run :
      (q : ℕ)
      → q < entry.psl
      → Held lookups (walked commit (first_slot commit (hash entry.data_id)) q) q

pub record Fits (commit : ℕ) (hash : ℕ → ℕ) (lookups : List LookupEntry) : Type 0 where
  pub size : length lookups ≡ commit
  pub at :
      (j : ℕ)
      → j < commit
      → is_empty_lookup (lookup_at lookups j) ≡ false
      → IsAt commit hash lookups (lookup_at lookups j) j

-- What is taken stays taken, by entries that are no nearer to their own slot.
abbrev pub Raises : List LookupEntry → List LookupEntry → Type 0
Raises new lookups = (j q : ℕ) → Held lookups j q → Held new j q

pub IsAt-mono :
    {commit : ℕ} {hash : ℕ → ℕ} {lookups new : List LookupEntry} {entry : LookupEntry} {i : ℕ}
    → Raises new lookups
    → IsAt commit hash lookups entry i
    → IsAt commit hash new entry i
IsAt-mono {commit = commit} {hash = hash} {entry = entry} raises at = record {
  print = at.print;
  reach = at.reach;
  short = at.short;
  place = at.place;
  run = λ q h. raises (walked commit (first_slot commit (hash entry.data_id)) q) q (at.run q h);
}

pub bit_or_one : (a : ℕ) → (bit_or a 1 == 0) ≡ false
bit_or_one a = let digit = bit_or_digit a 1 in ground arith

pub create_lookup-taken : (key_hash : ℕ) → is_empty_lookup (create_lookup key_hash) ≡ false
unfolding create_lookup
create_lookup-taken key_hash = bit_or_one (key_hash / 2 ^ 8)

pub IsAt-taken :
    {commit : ℕ} {hash : ℕ → ℕ} {lookups : List LookupEntry} {entry : LookupEntry} {i : ℕ}
    → IsAt commit hash lookups entry i
    → is_empty_lookup entry ≡ false
IsAt-taken {hash = hash} {entry = entry} at = rw at.print (create_lookup-taken (hash entry.data_id))

pub next_slot-walked :
    (commit first t : ℕ)
    → first < commit
    → t < commit
    → next_slot commit (walked commit first t) ≡ walked commit first (t + 1)
unfolding next_slot
next_slot-walked commit first t h k = ground arith

pub next_slot-lt : (commit i : ℕ) → i < commit → next_slot commit i < commit
unfolding next_slot
next_slot-lt commit i h = ground arith

pub gap-next_slot :
    (commit i e : ℕ)
    → i < commit
    → e < commit
    → i ≢ e
    → gap commit i e ≡ suc (gap commit (next_slot commit i) e)
unfolding next_slot
gap-next_slot commit i e h k ne = ground arith

module _ {commit : ℕ} (started : (h : ℕ) → first_slot commit h < commit) where
  -- A walk that has met entries only has not gone round, if a slot is empty.
  pub short_of_empty :
      (lookups : List LookupEntry) (first n e : ℕ)
      → first < commit
      → n ≤ commit
      → ((q : ℕ) → q < n → is_empty_lookup (lookup_at lookups (walked commit first q)) ≡ false)
      → e < commit
      → is_empty_lookup (lookup_at lookups e) ≡ true
      → n < commit
  short_of_empty lookups first n e h k taken below empty =
      let (s, inside, onto) = walked_onto commit first e h below in
      elim (dec_lt s n) [
        | no after ↦ omega arith
        | yes before ↦ absurd (true≢false (sym (rw onto empty) ∙ taken s before))
      ]

  -- One slot on.
  pub IsAt-further :
      {hash : ℕ → ℕ} (lookups : List LookupEntry) (entry : LookupEntry) (i e : ℕ)
      → IsAt commit hash lookups entry i
      → Held lookups i entry.psl
      → entry.psl ≢ max_psl
      → e < commit
      → is_empty_lookup (lookup_at lookups e) ≡ true
      → IsAt commit hash lookups (further entry) (next_slot commit i)
  IsAt-further {hash = hash} lookups entry i e at held ne below empty =
      let first = first_slot commit (hash entry.data_id) in
      let reach = at.reach in
      let short = at.short in
      let run_on : (q : ℕ) → q < entry.psl + 1 → Held lookups (walked commit first q) q = (λ q h.
        elim (dec_lt q entry.psl) [
          | yes before ↦ at.run q before
          | no after ↦ let same : q ≡ entry.psl = omega arith in rw (same, sym at.place) held
        ]) in
      record {
        print = at.print;
        reach = omega (arith, reach, ne);
        short =
            short_of_empty lookups first (entry.psl + 1) e (started (hash entry.data_id))
              (omega (arith, short)) (λ q h. (run_on q h).0) below empty;
        place =
            rw at.place
              (next_slot-walked commit first entry.psl (started (hash entry.data_id)) short);
        run = run_on;
      }
