-- ===== src/Skip/Links.antt =====
-- Changes of forward pointers: which pointer of which node gets which value.

pub mod Relink
pub mod Heaps
use mathlib.Core.Path.{subst, fun_ext}
use source.Prelude.{
  ℕ, ◌<◌, ◌≡◌, ◌≢◌, refl, sym, ap, ◌∙◌, ◌&&◌, true, false, Bool, Option, none, some, List, length,
  length-set, get_elem?, set, get_elem?-set, ltb, ◌==◌, if◌then◌else◌, Bool-cases, inl, inr, arith,
}
use source.Skip.Items.{Item, next, Stored, Points, Linked}
use source.Skip.State.{Node, Heap, write, deref, set_next}
use source.Table.Memory.{Run, done}

-- The new pointer of the node at an address on a level, if it changes.
abbrev pub Change : Type 0
Change = ℕ → ℕ → Option (Option ℕ)

abbrev pub else_old : Option (Option ℕ) → Option (Option ℕ) → Option (Option ℕ)
else_old none old = old
else_old (some q) old = some q

else_old_assoc : (a b c : Option (Option ℕ)) → else_old a (else_old b c) ≡ else_old (else_old a b) c
else_old_assoc none b c = refl
else_old_assoc (some q) b c = refl

pub record Changed (new : ℕ → Option (Option ℕ)) (n n' : Node) : Type 0 where
  pub key_addr : n'.key_addr ≡ n.key_addr
  pub key : n'.key ≡ n.key
  pub value : n'.value ≡ n.value
  pub width : length n'.forward ≡ length n.forward
  pub links :
      (l : ℕ)
      → l < length n.forward
      → get_elem? n'.forward l ≡ else_old (new l) (get_elem? n.forward l)

abbrev pub IsChanged : (ℕ → Option (Option ℕ)) → Node → Option Node → Type 0
IsChanged new n o = (n' : Node) × (o ≡ some n') × Changed new n n'

-- Every node is there still, and only those pointers are others.
abbrev pub Changes : Heap → Heap → Change → Type 0
Changes h h' f = (p : ℕ) (n : Node) → h p ≡ some n → IsChanged (f p) n (h' p)

pub Changes-none : (h : Heap) → Changes h h (λ p l. none)
Changes-none h p n e =
    (n, e, record { key_addr = refl; key = refl; value = refl; width = refl; links = λ l lt. refl })

abbrev pub set_one : ℕ → ℕ → Option ℕ → Change
set_one p l q a m = if a == p then (if l == m then some q else none) else none

pub Changes-set :
    (h : Heap) (p l : ℕ) (q : Option ℕ) (n : Node)
    → h p ≡ some n
    → l < length n.forward
    → Changes h (write h p (some (record n { forward = set n.forward l q }))) (set_one p l q)
unfolding write
Changes-set h p l q n e lt a m f = elim (Bool-cases (a == p)) [
  | inl here ↦
      let a_p : a ≡ p = ground arith in
      let m_n : some m ≡ some n = sym f ∙ ap h a_p ∙ e in
      let same : m ≡ n = cc in
      rw (here, same)
        (
          record n { forward = set n.forward l q },
          refl,
          record {
            key_addr = refl;
            key = refl;
            value = refl;
            width = length-set n.forward l q;
            links = λ j lt_j. get_elem?-set n.forward l j q lt ∙ ground arith;
          },
        )
  | inr other ↦ (
    m,
    rw other f,
    record { key_addr = refl; key = refl; value = refl; width = refl; links = λ j lt_j. rw other },
  )
]

pub set_next-done :
    (h : Heap) (p l : ℕ) (q : Option ℕ) (n : Node)
    → h p ≡ some n
    → l < length n.forward
    → set_next h p l q ≡ done (write h p (some (record n { forward = set n.forward l q })))
unfolding set_next
set_next-done h p l q n e lt =
    let inside : ltb l (length n.forward) ≡ true = ground arith in
    let there : deref h p ≡ done n = unfold deref in rw (e, deref) in rw (there, inside)

-- One change after another.
abbrev pub then_change : Change → Change → Change
then_change f g p l = else_old (g p l) (f p l)

pub Changes-trans :
    {h h1 h2 : Heap} {f g : Change}
    → Changes h h1 f
    → Changes h1 h2 g
    → Changes h h2 (then_change f g)
Changes-trans {f} {g} first second p n e =
    let (n1, e1, c1) = first p n e in
    let (n2, e2, c2) = second p n1 e1 in
    (
      n2,
      e2,
      record {
        key_addr = c2.key_addr ∙ c1.key_addr;
        key = c2.key ∙ c1.key;
        value = c2.value ∙ c1.value;
        width = c2.width ∙ c1.width;
        links = λ l lt.
            c2.links l (omega (arith, c1.width))
            ∙ ap (else_old (g p l)) (c1.links l lt)
            ∙ else_old_assoc (g p l) (f p l) _;
      },
    )

-- Two descriptions of the same change.
pub Changes-congr :
    {h h' : Heap} {f g : Change} → Changes h h' f → ((p l : ℕ) → f p l ≡ g p l) → Changes h h' g
Changes-congr {h} {h'} c same = subst (λ f. Changes h h' f) (fun_ext (λ p. fun_ext (same p))) c
