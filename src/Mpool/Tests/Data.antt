-- ===== src/Mpool/Tests/Data.antt =====
-- A pool with one allocation, a block that a call has in hand, and a system that maps pages one behind
-- the other.
use mathlib.Core.Path.{subst}
use source.Mpool.Free.{real_size_of}
use source.Mpool.Bytes.{put}
use source.Mpool.Open.{zeroed}
use source.Mpool.Pages.Granted.{IsRoom, IsFresh}
use source.Mpool.Pages.{System, mapped, failed, write_magic, check_magic, max_block_user_memory}
use source.Mpool.State.{Store, is_set}
use source.Mpool.Valid.{
  Owners, nobody, structure, taken, live_at, give, Owns, Placed, small, IsLive, IsValid,
}
use source.Prelude.{
  ltb, ◌&&◌, if◌then◌else◌, ◌≤◌, ◌∙◌, true, Bool, Option, sym, ◌^◌, ℕ, ◌+◌, ◌<◌, ◌≡◌, inl, inr,
  refl, ◌==◌, Bool-cases, none, some, [], arith,
}

-- The state of the system is the next address; there is no memory past 2 ^ 63.
abbrev has_room : ℕ → ℕ → Bool
has_room w size = ltb 0 w && ltb (w + size) (2 ^ 63)

abbrev pub bump : System ℕ
bump = record {
  getpagesize = 4096;
  open_zero = λ w. (some 3, w);
  close = λ fd w. w;
  sbrk = λ size w. if has_room w size then (some w, w + size) else (none, w);
  mmap =
      λ addr size fd offset w. if has_room w size then (mapped w, w + size) else (failed true, w);
  munmap = λ addr size w. w;
  log = λ call w. w;
  malloc = λ size w. (0, w);
  calloc = λ n size w. (0, w);
  realloc = λ addr size w. (0, w);
  free = λ addr w. w;
}

-- Nobody owns anything from an address on.
abbrev pub OwnsNoneFrom : Owners → ℕ → Type 0
OwnsNoneFrom own w = (x : ℕ) → w ≤ x → own x ≡ nobody

IsRoom-from :
    (own : Owners) (w v size : ℕ)
    → OwnsNoneFrom own w
    → w ≤ v
    → has_room v size ≡ true
    → IsRoom own v size
IsRoom-from own w v size none_from le e = record {
  somewhere = ground (arith, e);
  ends = ground (arith, e);
  owns = λ x x_le lt. none_from x (omega arith);
}

bump-grows :
    (own : Owners) (w v size a : ℕ)
    → OwnsNoneFrom own w
    → w ≤ v
    → (bump.sbrk size v).0 ≡ some a
    → IsRoom own a size
bump-grows own w v size a none_from le e = elim (Bool-cases (has_room v size)) [
  | inl room ↦
      let here : (bump.sbrk size v).0 ≡ some v = rw room refl in
      let same : some v ≡ some a = sym here ∙ e in
      let at : v ≡ a = cc in
      subst (λ b. IsRoom own b size) at (IsRoom-from own w v size none_from le room)
  | inr over ↦
      let here : (bump.sbrk size v).0 ≡ none = rw over refl in
      let clash : none ≡ some a = sym here ∙ e in absurd (cc)
]

bump-maps :
    (own : Owners) (w addr size : ℕ) (fd : Option ℕ) (offset a : ℕ)
    → OwnsNoneFrom own w
    → (bump.mmap addr size fd offset w).0 ≡ mapped a
    → IsRoom own a size
bump-maps own w addr size fd offset a none_from e = elim (Bool-cases (has_room w size)) [
  | inl room ↦
      let here : (bump.mmap addr size fd offset w).0 ≡ mapped w = rw room refl in
      let same : mapped w ≡ mapped a = sym here ∙ e in
      let at : w ≡ a = cc in
      subst (λ b. IsRoom own b size) at (IsRoom-from own w w size none_from (omega arith) room)
  | inr over ↦
      let here : (bump.mmap addr size fd offset w).0 ≡ failed true = rw over refl in
      let clash : failed true ≡ mapped a = sym here ∙ e in absurd (cc)
]

bump-after : (w size : ℕ) → w ≤ (bump.sbrk size w).1
bump-after w size = elim (Bool-cases (has_room w size)) [
  | inl room ↦ rw room (omega arith)
  | inr over ↦ rw over (omega arith)
]

pub bump-IsFresh : (own : Owners) (w : ℕ) → OwnsNoneFrom own w → IsFresh bump own w
bump-IsFresh own w none_from = record {
  maps = λ addr size fd offset a e. bump-maps own w addr size fd offset a none_from e;
  grows = λ size a e. bump-grows own w w size a none_from (omega arith) e;
  grows_on =
      λ size more a e. bump-grows own w (bump.sbrk size w).1 more a none_from (bump-after w size) e;
}

-- An empty pool with pages of 4096 bytes, and memory that is 0 but for a fence.
abbrev pub one_block : Store
one_block = record { self = 4096; pool = zeroed 0 4096 none 0; mem = write_magic (λ x. 0) 8208 }

abbrev pub one_live : ℕ → ℕ
one_live = put (λ x. 0) 8192 16

-- 16 bytes at 8192 with their fence are an allocation, 64 at 12288 are in hand.
abbrev pub one_owners : Owners
one_owners =
    give (give (give (λ x. nobody) 4096 360 structure) 12288 64 taken) 8192 18 (live_at 8192)

pub live_Owns : Owns one_owners (live_at 8192) 8192 18
unfolding give
live_Owns x le lt = ground arith

pub in_hand_Placed : Placed one_owners one_block.mem 4096 taken 12288 64
unfolding give
in_hand_Placed = small (omega arith) (λ x le lt. ground arith)

one_block-IsLive : IsLive one_owners one_block.mem 4096 2 8192 16
unfolding write_magic check_magic real_size_of max_block_user_memory
one_block-IsLive = record {
  somewhere = omega arith;
  ends = omega arith;
  least = omega arith;
  small = omega arith;
  fits = omega arith;
  placed = small (omega arith) live_Owns;
  fenced = inr (refl, refl);
}

pub one_block-IsValid : IsValid one_block one_owners one_live
unfolding is_set give
one_block-IsValid = record {
  magic = refl;
  magic2 = refl;
  page = record { least = omega arith; most = omega arith; aligned = refl };
  pool_bytes = λ x le lt. ground arith;
  spans = λ b. [];
  heads = λ b le top. refl;
  chains = λ b le top. tt;
  short = λ b lt. inl refl;
  lives = λ a. by_address a;
}
  where
    by_address : (a : ℕ) → 0 < one_live a → IsLive one_owners one_block.mem 4096 2 a (one_live a)
    by_address a lt = elim (Bool-cases (a == 8192)) [
      | inl here ↦
          let at : 8192 ≡ a = ground (arith, here) in
          subst (λ b. IsLive one_owners one_block.mem 4096 2 b (one_live b)) at one_block-IsLive
      | inr other ↦ absurd (ground (arith, other, lt))
    ]
