-- ===== src/DeviceLists/Kept.antt =====
-- StaticDeviceListManager: what an eviction, and the flag against reallocation, leave of the lists.
use mathlib.Core.Path.{subst}
use chitu.Base.{
  ℕ, ◌≡◌, ◌≢◌, refl, ap, ◌∙◌, true, false, inl, inr, none, some, nat_beq, length, arith, Dict, get,
  remove, has, get_default, get-remove_ne, nat_eq, nat_beq_iff, Bool-cases, Option-cases,
}
use chitu.DeviceLists.{Storage, own, row, DeviceList, Manager, cells, to_tensor, no_realloc}
use chitu.DeviceLists.Rows.{LivesIn, IsLive, IsManaged, KeepsLists, as_evicted, as_evicted_ne}

pub has-some : (d : Dict ℕ ℕ) (k r : ℕ) → get d k ≡ some r → has d k ≡ true
has-some d k r h = ground (arith, h)

pub get_default-some : (d : Dict ℕ ℕ) (k r : ℕ) → get d k ≡ some r → get_default d k 0 ≡ r
get_default-some d k r h = ground (arith, h)

pub has-none : (d : Dict ℕ ℕ) (k : ℕ) → has d k ≡ false → get d k ≡ none
has-none d k h = ground (arith, h)

pub has-cases : (d : Dict ℕ ℕ) (k : ℕ) → has d k ≡ true → (r : ℕ) × (get d k ≡ some r)
has-cases d k h = elim (Option-cases (get d k)) [
  | inl e ↦ absurd (let z : has d k ≡ false = ground (arith, e) in cc)
  | inr o ↦ o
]

pub KeepsLists-trans : (m n o : Manager) → KeepsLists m n → KeepsLists n o → KeepsLists m o
KeepsLists-trans m n o f g j h = let a = f j h in let b = g j a.0 in (b.0, b.1 ∙ a.1, b.2 ∙ a.2)

-- Only the flag of a list changes.
no_realloc-data_of :
    (k j : ℕ) (m : Manager) → ((no_realloc k m).lists j).data_of ≡ (m.lists j).data_of
no_realloc-data_of k j m = elim (Bool-cases (nat_beq k j)) [
  | inl e ↦
      subst (λ (x : ℕ). ((no_realloc k m).lists x).data_of ≡ (m.lists x).data_of)
        ((nat_beq_iff k j).0 e) (ground arith)
  | inr e ↦ rw e refl
]

pub no_realloc-len : (k j : ℕ) (m : Manager) → ((no_realloc k m).lists j).len ≡ (m.lists j).len
no_realloc-len k j m = elim (Bool-cases (nat_beq k j)) [
  | inl e ↦
      subst (λ (x : ℕ). ((no_realloc k m).lists x).len ≡ (m.lists x).len) ((nat_beq_iff k j).0 e)
        (ground arith)
  | inr e ↦ rw e refl
]

pub no_realloc-IsManaged : (k : ℕ) (m : Manager) → IsManaged m → IsManaged (no_realloc k m)
no_realloc-IsManaged k m v = record {
  stored = λ j s g. no_realloc-data_of k j m ∙ v.stored j s g;
  below = v.below;
  alone = v.alone;
  free_below = v.free_below;
  free_once = v.free_once;
  free_apart = v.free_apart;
  distinct = v.distinct;
  all_rows = v.all_rows;
  wide = v.wide;
  short = λ j s g. omega (arith, no_realloc-len k j m, v.short j s g);
}

pub no_realloc-KeepsLists : (k : ℕ) (m : Manager) → KeepsLists m (no_realloc k m)
unfolding to_tensor
no_realloc-KeepsLists k m j h = rw (no_realloc-data_of k j m, no_realloc-len k j m) (h, refl, refl)

live_removed :
    (d : Dict ℕ ℕ) (j i n : ℕ) (st : Storage)
    → nat_beq j i ≡ false
    → LivesIn d i n st
    → LivesIn (remove d j) i n st
live_removed d j i n (own xs) e h = h
live_removed d j i n (row s) e h = get-remove_ne d j i e ∙ h

as_evicted_itself :
    (j r : ℕ) (m : Manager)
    → IsManaged m
    → get m.lru_queue j ≡ some r
    → IsLive (as_evicted j m) j
      × (to_tensor (as_evicted j m) j ≡ to_tensor m j)
      × (((as_evicted j m).lists j).len ≡ (m.lists j).len)
unfolding to_tensor
as_evicted_itself j r m v g =
    let l : DeviceList = record (m.lists j) {
      data_of = own (cells m.buffer (m.lists j).data_of);
      disable_reallocate = false;
    } in
    let s : (as_evicted j m).lists j ≡ l = ground arith in
    let w : length (cells m.buffer (m.lists j).data_of) ≡ m.max_num_cols =
      ap (λ (st : Storage). length (cells m.buffer st)) (v.stored j r g)
      ∙ v.wide r (v.below j r g).1 in
    rw s (omega (arith, w, v.short j r g), refl, refl)

pub as_evicted-KeepsLists :
    (j r : ℕ) (m : Manager)
    → IsManaged m
    → get m.lru_queue j ≡ some r
    → KeepsLists m (as_evicted j m)
unfolding to_tensor
as_evicted-KeepsLists j r m v g i h = elim (Bool-cases (nat_beq j i)) [
  | inl e ↦
      subst
        (λ (x : ℕ).
          IsLive (as_evicted j m) x
          × (to_tensor (as_evicted j m) x ≡ to_tensor m x)
          × (((as_evicted j m).lists x).len ≡ (m.lists x).len))
        ((nat_beq_iff j i).0 e) (as_evicted_itself j r m v g)
  | inr e ↦
      (let d : j ≢ i = ground (arith, e) in
        rw (as_evicted_ne j i m d)
          (live_removed m.lru_queue j i (m.lists i).len (m.lists i).data_of e h, refl, refl))
]
