-- ===== src/Models/Store/Access.antt =====
-- Reads and writes of the arena (crates/orion-models/src/attention.rs, `KvStore`): it behaves as a
-- map from slots to vectors, and no slice is out of range.
use orion_serve_rs.Prelude.{
  ℕ, ◌+◌, ◌≤◌, ◌≡◌, ◌⊎◌, ap, subst, ◌∙◌, refl, sym, ◌≢◌, inl, inr, Bool, true, false, ◌&&◌, arith,
  List, length, if◌then◌else◌, ◌==◌, if_elim, overwrite, cut, length-overwrite, cut-overwrite_self,
  cut-overwrite_before, cut-overwrite_after, length-replicate,
}
use orion_serve_rs.Core.Error.{EngineError}
use orion_serve_rs.Models.Run.{Run, returned, failed, panic, slice_inside, copy_from_slice_inside}
use orion_serve_rs.Models.Store.{KvStore, new, slot_offset, check_bounds, read, write}
use orion_serve_rs.Models.Store.Offsets.{Sized, Slot, Fits, offset_of, slot_inside, slots_apart}

abbrev pub read_at : KvStore → Slot → Run (List ℕ)
read_at s p = read s p.layer p.block p.slot p.head p.is_value

abbrev pub write_at : KvStore → Slot → List ℕ → Run KvStore
write_at s p vector = write s p.layer p.block p.slot p.head p.is_value vector

abbrev bool_eq : Bool → Bool → Bool
bool_eq a b = if a then b else (if b then false else true)

abbrev pub slot_eq : Slot → Slot → Bool
slot_eq p q =
    (p.layer == q.layer)
    && (p.block == q.block)
    && (p.slot == q.slot)
    && (p.head == q.head)
    && bool_eq p.is_value q.is_value

slot_eq→eq : (p q : Slot) → slot_eq p q ≡ true → p ≡ q
slot_eq→eq p q e = ground arith

slot_eq→ne : (p q : Slot) → slot_eq p q ≡ false → p ≢ q
slot_eq→ne p q e same = ground arith

pub new-Sized : (l b n h d : ℕ) → Sized (new l b n h d)
unfolding new
new-Sized l b n h d = record { size = length-replicate _ 0 }

pub check_bounds-Fits :
    (s : KvStore) (p : Slot) (n : ℕ)
    → Fits s p
    → n ≡ s.head_dim
    → check_bounds s p.layer p.block p.slot p.head n ≡ returned tt
unfolding check_bounds
check_bounds-Fits s p n f e = ground (arith, f.layer_lt, f.block_lt, f.slot_lt, f.head_lt)

Fits-check_bounds :
    (s : KvStore) (p : Slot) (n : ℕ)
    → check_bounds s p.layer p.block p.slot p.head n ≡ returned tt
    → Fits s p × (n ≡ s.head_dim)
unfolding check_bounds
Fits-check_bounds s p n e = (
  record {
    layer_lt = ground arith;
    block_lt = ground arith;
    slot_lt = ground arith;
    head_lt = ground arith;
  },
  ground arith,
)

pub write_at-Fits :
    (s : KvStore) (p : Slot) (vec : List ℕ)
    → Sized s
    → Fits s p
    → length vec ≡ s.head_dim
    → write_at s p vec ≡ returned (record s { elements = overwrite s.elements (offset_of s p) vec })
unfolding write
write_at-Fits s p vec z f e =
    rw
      (
        check_bounds-Fits s p (length vec) f e,
        copy_from_slice_inside s.elements (offset_of s p) vec (omega (arith, slot_inside s p z f)),
      )
      refl

pub read_at-Fits :
    (s : KvStore) (p : Slot)
    → Sized s
    → Fits s p
    → read_at s p ≡ returned (cut s.elements (offset_of s p) s.head_dim)
unfolding read
read_at-Fits s p z f =
    rw
      (
        check_bounds-Fits s p s.head_dim f refl,
        slice_inside s.elements (offset_of s p) s.head_dim (slot_inside s p z f),
      )
      refl

check_bounds-panic :
    (s : KvStore) (p : Slot) (n : ℕ) → check_bounds s p.layer p.block p.slot p.head n ≢ panic
unfolding check_bounds
check_bounds-panic s p n e = ground arith

bounds_cases :
    (s : KvStore) (p : Slot) (n : ℕ)
    → (Fits s p × (n ≡ s.head_dim))
      ⊎ ((e : EngineError) × (check_bounds s p.layer p.block p.slot p.head n ≡ failed e))
bounds_cases s p n = split _ refl
  where
    split :
        (r : Run (Unit {0}))
        → check_bounds s p.layer p.block p.slot p.head n ≡ r
        → (Fits s p × (n ≡ s.head_dim))
          ⊎ ((e : EngineError) × (check_bounds s p.layer p.block p.slot p.head n ≡ failed e))
    split (returned tt) e = inl (Fits-check_bounds s p n e)
    split (failed why) e = inr (why, e)
    split panic e = absurd (check_bounds-panic s p n e)

returned_injective : {A : Type 0} {a b : A} → returned a ≡ returned b → a ≡ b
returned_injective e = cc

failed-ne-returned : {A : Type 0} {a : A} {e : EngineError} → failed e ≢ returned a
failed-ne-returned e = cc

write_at-failed :
    (s : KvStore) (p : Slot) (vec : List ℕ) (e : EngineError)
    → check_bounds s p.layer p.block p.slot p.head (length vec) ≡ failed e
    → write_at s p vec ≡ failed e
unfolding write
write_at-failed s p vec e h = rw h refl

read_at-failed :
    (s : KvStore) (p : Slot) (e : EngineError)
    → check_bounds s p.layer p.block p.slot p.head s.head_dim ≡ failed e
    → read_at s p ≡ failed e
unfolding read
read_at-failed s p e h = rw h refl

-- A write ends with the arena of `overwrite`, and only where the slot is in bounds.
write_at_inv :
    (s s' : KvStore) (p : Slot) (vec : List ℕ)
    → Sized s
    → write_at s p vec ≡ returned s'
    → Fits s p
      × (length vec ≡ s.head_dim)
      × (s' ≡ record s { elements = overwrite s.elements (offset_of s p) vec })
write_at_inv s s' p vec z e = elim (bounds_cases s p (length vec)) [
  | inl (f, same) ↦ (f, same, returned_injective (sym e ∙ write_at-Fits s p vec z f same))
  | inr (why, fails) ↦ absurd (failed-ne-returned (sym (write_at-failed s p vec why fails) ∙ e))
]

pub write_at-Sized :
    (s s' : KvStore) (p : Slot) (vec : List ℕ) → Sized s → write_at s p vec ≡ returned s' → Sized s'
write_at-Sized s s' p vec z e =
    let (f, same, is) = write_at_inv s s' p vec z e in
    subst Sized (sym is)
      (record { size = length-overwrite s.elements (offset_of s p) vec ∙ z.size })

-- The slot that was written, and a slot apart from it, after the write.
module _ (s : KvStore) (p : Slot) (vec : List ℕ) where
  abbrev after : KvStore
  after = record s { elements = overwrite s.elements (offset_of s p) vec }

  offset_after : (q : Slot) → offset_of after q ≡ offset_of s q
  unfolding slot_offset
  offset_after q = refl

  bounds_after :
      (q : Slot)
      → check_bounds after q.layer q.block q.slot q.head s.head_dim
        ≡ check_bounds s q.layer q.block q.slot q.head s.head_dim
  unfolding check_bounds
  bounds_after q = refl

  after-Fits : (q : Slot) → Fits s q → Fits after q
  after-Fits q g = record {
    layer_lt = g.layer_lt;
    block_lt = g.block_lt;
    slot_lt = g.slot_lt;
    head_lt = g.head_lt;
  }

  module _ (z : Sized s) (f : Fits s p) (l : length vec ≡ s.head_dim) where
    after-Sized : Sized after
    after-Sized = record { size = length-overwrite s.elements (offset_of s p) vec ∙ z.size }

    inside : offset_of s p + length vec ≤ length s.elements
    inside = omega (arith, slot_inside s p z f)

    read_same : read_at after p ≡ returned vec
    read_same =
        read_at-Fits after p after-Sized (after-Fits p f)
        ∙ ap returned (
            rw (offset_after p) (
              subst (λ n. cut (overwrite s.elements (offset_of s p) vec) (offset_of s p) n ≡ vec) l
                (cut-overwrite_self s.elements (offset_of s p) vec inside)))

    cut_other :
        (q : Slot)
        → Fits s q
        → p ≢ q
        → cut (overwrite s.elements (offset_of s p) vec) (offset_of s q) s.head_dim
          ≡ cut s.elements (offset_of s q) s.head_dim
    cut_other q g ne = elim (slots_apart s p q f g ne) [
      | inl above ↦ cut-overwrite_after s.elements (offset_of s p) vec _ _ (rw l above)
      | inr below ↦ cut-overwrite_before s.elements (offset_of s p) vec _ _ below
    ]

    read_other : (q : Slot) → p ≢ q → read_at after q ≡ read_at s q
    read_other q ne = elim (bounds_cases s q s.head_dim) [
      | inl (g, same) ↦
          read_at-Fits after q after-Sized (after-Fits q g)
          ∙ ap returned (rw (offset_after q) (cut_other q g ne))
          ∙ sym (read_at-Fits s q z g)
      | inr (why, fails) ↦
          read_at-failed after q why (bounds_after q ∙ fails) ∙ sym (read_at-failed s q why fails)
    ]

    read_after : (q : Slot) → read_at after q ≡ (if slot_eq p q then returned vec else read_at s q)
    read_after q =
        if_elim (λ r. read_at after q ≡ r) (slot_eq p q)
          (λ same. subst (λ r. read_at after r ≡ returned vec) (slot_eq→eq p q same) read_same)
          (λ differ. read_other q (slot_eq→ne p q differ))

-- A store of the size its constructor gives it is a map from slots to vectors: after a write that
-- returned, a read at any slot gives the vector that was written where the slot is the one written
-- to, key and value told apart, and elsewhere what it gave before, the error for a slot out of
-- bounds included.
pub read_at-write_at :
    (s s' : KvStore) (p q : Slot) (vec : List ℕ)
    → Sized s
    → write_at s p vec ≡ returned s'
    → read_at s' q ≡ (if slot_eq p q then returned vec else read_at s q)
read_at-write_at s s' p q vec z e =
    let (f, l, is) = write_at_inv s s' p vec z e in
    subst (λ t. read_at t q ≡ (if slot_eq p q then returned vec else read_at s q)) (sym is)
      (read_after s p vec z f l q)
