-- ===== src/Stdlib/Client/Tracks.antt =====
-- How the blocks of sdk/src/stdlib.c and the bytes of memory stand for a store of objects, and how that
-- is kept when a region comes, goes, or is written to.
use mathlib.Core.Path.{subst}
use axiome_toolchain.Base.{
  ℕ, ◌+◌, ◌≤◌, ◌<◌, ◌≡◌, ◌≢◌, refl, sym, ◌∙◌, ap, ◌⊎◌, inl, inr, false, List, Option, none, some,
  arith, ◌==◌, Bool-cases, ==_self,
}
use axiome_toolchain.Memory.{Memory, SameOutside}
use axiome_toolchain.Stdlib.Heap.Chain.{Cell, mark, coalesce}
use axiome_toolchain.Stdlib.Heap.Regions.{Region, Grants, mark-Region, coalesce-Region}
use axiome_toolchain.Stdlib.Client.{Object, Objects, Owned, insert, delete}
use axiome_toolchain.Stdlib.Client.Blocks.{Region-Apart, Keeps}
use axiome_toolchain.Stdlib.Client.Merging.{coalesce-Region_back}

-- Each object has a region that holds it, each region an object, and the bytes that are determined
-- stand in memory.
pub record Tracks (heap : ℕ) (cs : List Cell) (m : Memory) (o : Objects) : Type 0 where
  pub live_lem : (p : ℕ) (x : Object) → o p ≡ some x → (s : ℕ) × Region heap p s cs × (x.size ≤ s)
  pub owned_lem : (p s : ℕ) → Region heap p s cs → Owned o p
  pub bytes_lem :
      (p i v : ℕ) (x : Object) → o p ≡ some x → i < x.size → x.bytes i ≡ some v → m (p + i) ≡ v

-- The bytes of `x` that are determined stand at `p`.
abbrev pub Stands : Memory → ℕ → Object → Type 0
Stands m p x = (i v : ℕ) → i < x.size → x.bytes i ≡ some v → m (p + i) ≡ v

insert-cases :
    (p q : ℕ) (x y : Object) (o : Objects)
    → insert p x o q ≡ some y
    → ((q ≡ p) × (x ≡ y)) ⊎ ((q ≢ p) × (o q ≡ some y))
insert-cases p q x y o e = elim (Bool-cases (q == p)) [
  | inl here ↦
      let e' : ◌≡◌ {A = Option Object} (some x) (some y) = rw here at e in inl (ground arith, cc)
  | inr other ↦ inr (ground arith, rw other at e)
]

insert-other : (p q : ℕ) (x : Object) (o : Objects) → q ≢ p → insert p x o q ≡ o q
insert-other p q x o ne = let other : (q == p) ≡ false = ground arith in rw other refl

insert_self : (p : ℕ) (x : Object) (o : Objects) → insert p x o p ≡ some x
insert_self p x o = rw (==_self p) refl

delete-cases :
    (p q : ℕ) (y : Object) (o : Objects) → delete p o q ≡ some y → (q ≢ p) × (o q ≡ some y)
delete-cases p q y o e = elim (Bool-cases (q == p)) [
  | inl here ↦ let e' : ◌≡◌ {A = Option Object} none (some y) = rw here at e in absurd (cc)
  | inr other ↦ (ground arith, rw other at e)
]

delete-other : (p q : ℕ) (o : Objects) → q ≢ p → delete p o q ≡ o q
delete-other p q o ne = let other : (q == p) ≡ false = ground arith in rw other refl

pub Tracks-fresh :
    (heap k p : ℕ) (cs ds : List Cell) (m : Memory) (o : Objects)
    → Tracks heap cs m o
    → Grants heap k p cs ds
    → o p ≡ none
Tracks-fresh heap k p cs ds m o t (size, r, le, keep, len) = cases (o p) refl
  where
    cases : (y : Option Object) → o p ≡ y → o p ≡ none
    cases none e = e
    cases (some x) e =
        let (s, old, fits) = t.live_lem p x e in absurd (omega (arith, (keep p s old).1))

-- A region comes, with an object in it.
pub Tracks-insert :
    (heap k p : ℕ) (cs ds : List Cell) (m g : Memory) (o : Objects) (x : Object)
    → Tracks heap cs m o
    → Grants heap k p cs ds
    → Keeps heap p cs ds
    → x.size ≤ k
    → SameOutside p x.size m g
    → Stands g p x
    → Tracks heap ds g (insert p x o)
Tracks-insert heap k p cs ds m g o x t (size, r, le, keep, len) (sep, first, back) fits same
      stands =
    record {
      live_lem = λ q y e. elim (insert-cases p q x y o e) [
        | inl (here, it) ↦ (
          size,
          subst (λ a. Region heap a size ds) (sym here) r,
          subst (λ z. z.size ≤ size) it (omega arith),
        )
        | inr (other, old) ↦
            let (s, region, small) = t.live_lem q y old in (s, (keep q s region).0, small)
      ];
      owned_lem = λ q s r'. elim (back q s r') [
        | inl here ↦ (x, ap (insert p x o) here ∙ insert_self p x o)
        | inr region ↦
            let (y, e) = t.owned_lem q s region in
            let ne : q ≢ p = omega (arith, (keep q s region).1) in (y, insert-other p q x o ne ∙ e)
      ];
      bytes_lem = λ q i v y e lt b. elim (insert-cases p q x y o e) [
        | inl (here, it) ↦
            ap (λ a. g (a + i)) here
            ∙ stands i v (subst (λ z. i < z.size) (sym it) lt)
                (subst (λ z. z.bytes i ≡ some v) (sym it) b)
        | inr (other, old) ↦
            let (s, region, small) = t.live_lem q y old in
            let apart = (keep q s region).1 in
            same (q + i) (λ h. omega arith) ∙ t.bytes_lem q i v y old lt b
      ];
    }

-- A region goes, and the object in it.
pub Tracks-delete :
    (heap p : ℕ) (cs : List Cell) (m : Memory) (o : Objects)
    → Tracks heap cs m o
    → Tracks heap (coalesce (mark heap p cs)) m (delete p o)
Tracks-delete heap p cs m o t = record {
  live_lem = λ q y e.
      let (ne, old) = delete-cases p q y o e in
      let (s, region, small) = t.live_lem q y old in
      (s, coalesce-Region heap q s (mark heap p cs) (mark-Region heap p q s cs ne region), small);
  owned_lem = λ q s r.
      let (ne, region) = coalesce-Region_back heap p q s cs r in
      let (y, e) = t.owned_lem q s region in (y, delete-other p q o ne ∙ e);
  bytes_lem = λ q i v y e lt b. t.bytes_lem q i v y (delete-cases p q y o e).1 lt b;
}

-- An object is exchanged for one that its region holds too; memory changes inside it at most.
pub Tracks-replace :
    (heap p s : ℕ) (cs : List Cell) (m g : Memory) (o : Objects) (x : Object)
    → Tracks heap cs m o
    → Region heap p s cs
    → x.size ≤ s
    → SameOutside p s m g
    → Stands g p x
    → Tracks heap cs g (insert p x o)
Tracks-replace heap p s cs m g o x t r fits same stands = record {
  live_lem = λ q y e. elim (insert-cases p q x y o e) [
    | inl (here, it) ↦
        (s, subst (λ a. Region heap a s cs) (sym here) r, subst (λ z. z.size ≤ s) it fits)
    | inr (other, old) ↦ t.live_lem q y old
  ];
  owned_lem = λ q z region.
      let (y, e) = t.owned_lem q z region in
      elim (Bool-cases (q == p)) [ inl here ↦ (x, rw here refl) | inr other ↦ (y, rw other e) ];
  bytes_lem = λ q i v y e lt b. elim (insert-cases p q x y o e) [
    | inl (here, it) ↦
        ap (λ a. g (a + i)) here
        ∙ stands i v (subst (λ z. i < z.size) (sym it) lt)
            (subst (λ z. z.bytes i ≡ some v) (sym it) b)
    | inr (other, old) ↦
        let (z, region, small) = t.live_lem q y old in
        let apart = Region-Apart heap q p z s cs region r other in
        same (q + i) (λ h. omega arith) ∙ t.bytes_lem q i v y old lt b
  ];
}
