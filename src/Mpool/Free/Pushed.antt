-- ===== src/Mpool/Free/Pushed.antt =====
-- `free_pointer` on a valid pool.
use mathlib.Core.Path.{subst}
use source.Mpool.Bits.{size_to_free_bits}
use source.Mpool.Bytes.{load, Bytes, put, store, load-store, load-store-other, store-other}
use source.Mpool.Pages.Laws.{IsSmall}
use source.Mpool.State.{Error, no_error, Store, max_bits}
use source.Mpool.Valid.Hand.{hand, SameOutside, hand-other, hand-inside, Same-kept, Placed-hand}
use source.Mpool.Valid.Kept.{Owns-kept, lower, Chain-kept, IsLive-kept, room-16}
use source.Mpool.Valid.{
  structure, Owners, lost, taken, free_in, live_at, Placed, Span, head_of, IsFree, Chain, IsValid,
}
use source.Prelude.{
  ℕ, ◌+◌, ◌^◌, ◌≤◌, ◌<◌, ◌≡◌, ◌≢◌, ◌⊎◌, inl, inr, ◌∙◌, false, ◌==◌, if◌then◌else◌, Bool-cases, List,
  [], ◌∷◌, length, arith,
}

-- A pool with other heads of the lists, and other memory.
abbrev pub with_free : Store → (ℕ → ℕ) → Bytes → Store
with_free s f m = record s { pool = record s.pool { free = f }; mem = m }

-- The block at `a` is on the free list for its size, and the other lists are as they were. From 8
-- bytes on it is in front of the list, and from 16 on it holds the old front and its size; less than 8
-- bytes are a list of their own if there is none, and else they are lost.
pub record IsListed (free : ℕ → ℕ) (a size : ℕ) (free' : ℕ → ℕ) (m' : Bytes) : Type 0 where
  pub others : (c : ℕ) → c ≢ size_to_free_bits size → free' c ≡ free c
  pub front : 8 ≤ size → free' (size_to_free_bits size) ≡ a
  pub next : 16 ≤ size → load m' a 8 ≡ free (size_to_free_bits size)
  pub holds_size : 16 ≤ size → load m' (a + 8) 8 ≡ size
  pub alone :
      size < 8
      → free' (size_to_free_bits size)
        ≡ (if free (size_to_free_bits size) == 0 then a else free (size_to_free_bits size))

-- After a run that frees the block at `a`: no error, and a valid pool that has the block on its list.
-- Outside of the block nothing has changed, and in it no allocation has come.
pub record Freed (s : Store) (own : Owners) (live : ℕ → ℕ) (a size : ℕ) (run : Error × Store)
    : Type 0 where
  pub owners : Owners
  pub free : ℕ → ℕ
  pub mem : Bytes
  pub runs : run ≡ (no_error, with_free s free mem)
  pub holds : IsValid (with_free s free mem) owners live
  pub same : SameOutside own s.mem owners mem s.pool.page_size a size
  pub listed : IsListed s.pool.free a size free mem
  pub no_live : (x c : ℕ) → owners x ≡ live_at c → own x ≡ live_at c

pub head-lt :
    (own : Owners) (m : Bytes) (p b : ℕ) (xs : List Span) → Chain own m p b xs → head_of xs < 2 ^ 64
head-lt own m p b [] c = omega arith
head-lt own m p b (x ∷ xs) c = omega (arith, c.0.ends)

module _ (s : Store) (own : Owners) (live : ℕ → ℕ) (valid : IsValid s own live) (a size : ℕ)
    (somewhere : 0 < a) (placed : Placed own s.mem s.pool.page_size taken a size) where
  abbrev p : ℕ
  p = s.pool.page_size

  short-kept :
      {own' : Owners} {m' : Bytes} (same : SameOutside own s.mem own' m' p a size) (c : ℕ)
      → c < 4
      → s.pool.free c ≡ 0 ⊎ (own' (s.pool.free c) ≡ lost)
  short-kept same c lt = elim (valid.short c lt) [
    | inl none_in ↦ inl none_in
    | inr gone ↦ inr ((Same-kept placed same lost (λ z. cc) (s.pool.free c) gone).0 ∙ gone)
  ]

  chains-kept :
      {own' : Owners} {m' : Bytes} (same : SameOutside own s.mem own' m' p a size) (c : ℕ)
      → 4 ≤ c
      → c ≤ max_bits
      → Chain own' m' p c (valid.spans c)
  chains-kept same c le top =
      Chain-kept p c (valid.spans c) le (λ j lt. Same-kept placed same (free_in c j) (λ z. cc))
        (valid.chains c le top)

  -- A block of less than 16 bytes is lost.
  pub short-IsValid :
      (b : ℕ) (m' : Bytes)
      → b < 4
      → ((x : ℕ) → (x < a) ⊎ (a + size ≤ x) → m' x ≡ s.mem x)
      → size < 16
      → 0 < size
      → IsValid (with_free s (put s.pool.free b a) m') (hand own p a size lost) live
  short-IsValid b m' lt out few some_bytes =
      let plain : lower p a size ≡ a = ground (arith, valid.page.least) in
      let same : SameOutside own s.mem (hand own p a size lost) m' p a size = λ x o.
        (hand-other own p a size lost x o, out x (subst (λ l. (x < l) ⊎ (a + size ≤ x)) plain o)) in
      record {
        magic = valid.magic;
        magic2 = valid.magic2;
        page = valid.page;
        pool_bytes =
            Owns-kept s.self 360 (Same-kept placed same structure (λ z. cc)) valid.pool_bytes;
        spans = valid.spans;
        heads = λ c le top.
            let other : (c == b) ≡ false = ground arith in rw other (valid.heads c le top);
        chains = λ c le top. chains-kept same c le top;
        short = λ c c_lt. elim (Bool-cases (c == b)) [
          | inl here ↦
              rw here (inr (hand-inside own p a size lost a (omega (arith, plain)) (omega arith)))
          | inr other ↦ rw other (short-kept same c c_lt)
        ];
        lives = λ b some_live.
            IsLive-kept valid.page (Same-kept placed same (live_at b) (λ z. cc))
              (valid.lives b some_live);
      }

  -- A longer one is the first of its list.
  module _ (b : ℕ) (long : 4 ≤ b) (top : b ≤ max_bits) (room : 2 ^ b ≤ size)
      (ends : a + size < 2 ^ 64) (fits : IsSmall size) where
    abbrev next : ℕ
    next = s.pool.free b

    abbrev m' : Bytes
    m' = store (store s.mem a 8 next) (a + 8) 8 size

    abbrev own' : Owners
    own' = hand own p a size (free_in b (length (valid.spans b)))

    abbrev entry : Span
    entry = record { addr = a; size = size }

    out : (x : ℕ) → (x < a) ⊎ (a + size ≤ x) → m' x ≡ s.mem x
    out x (inl lt) =
        store-other (store s.mem a 8 next) (a + 8) 8 size x (inl (omega arith))
        ∙ store-other s.mem a 8 next x (inl lt)
    out x (inr le) =
        let wide = room-16 b size long room in
        store-other (store s.mem a 8 next) (a + 8) 8 size x (inr (omega arith))
        ∙ store-other s.mem a 8 next x (inr (omega arith))

    pub long-same : SameOutside own s.mem own' m' p a size
    long-same x o =
        (hand-other own p a size (free_in b (length (valid.spans b))) x o, out x (by_side o))
      where
        by_side : (x < lower p a size) ⊎ (a + size ≤ x) → (x < a) ⊎ (a + size ≤ x)
        by_side (inl lt) = inl (ground arith)
        by_side (inr le) = inr le

    entry-IsFree : IsFree own' m' p b entry (valid.spans b)
    entry-IsFree =
        let head = valid.heads b long top in
        let small_head = head-lt own s.mem p b (valid.spans b) (valid.chains b long top) in
        record {
          somewhere = somewhere;
          ends = ends;
          room = room;
          small = fits;
          placed = Placed-hand (free_in b (length (valid.spans b))) out placed;
          next =
              load-store-other (store s.mem a 8 next) (a + 8) 8 size a 8 (inl (omega arith))
              ∙ load-store s.mem a 8 next (omega (arith, head, small_head))
              ∙ head;
          size = load-store (store s.mem a 8 next) (a + 8) 8 size (omega arith);
        }

    abbrev spans' : ℕ → List Span
    spans' c = if c == b then entry ∷ valid.spans b else valid.spans c

    long-chains : (c : ℕ) → 4 ≤ c → c ≤ max_bits → Chain own' m' p c (spans' c)
    long-chains c le c_top = elim (Bool-cases (c == b)) [
      | inl here ↦
          let c_b : b ≡ c = ground arith in
          rw here (
            subst (λ d. Chain own' m' p d (entry ∷ valid.spans b)) c_b
              (entry-IsFree, chains-kept long-same b long top))
      | inr other ↦ rw other (chains-kept long-same c le c_top)
    ]

    long-heads : (c : ℕ) → 4 ≤ c → c ≤ max_bits → put s.pool.free b a c ≡ head_of (spans' c)
    long-heads c le c_top = elim (Bool-cases (c == b)) [
      | inl here ↦ rw here
      | inr other ↦ rw other (valid.heads c le c_top)
    ]

    pub long-IsValid : IsValid (with_free s (put s.pool.free b a) m') own' live
    long-IsValid = record {
      magic = valid.magic;
      magic2 = valid.magic2;
      page = valid.page;
      pool_bytes =
          Owns-kept s.self 360 (Same-kept placed long-same structure (λ z. cc)) valid.pool_bytes;
      spans = spans';
      heads = long-heads;
      chains = long-chains;
      short = λ c c_lt.
          let other : (c == b) ≡ false = ground arith in rw other (short-kept long-same c c_lt);
      lives = λ c some_live.
          IsLive-kept valid.page (Same-kept placed long-same (live_at c) (λ z. cc))
            (valid.lives c some_live);
    }
