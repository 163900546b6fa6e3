-- ===== src/Containers/StringPool/Grow.antt =====
-- `ReserveBuf` of StringPoolS.cpp.
use linux_multiarch_asm.Base.{
  ℕ, ◌+◌, ◌-◌, ◌*◌, ◌^◌, ◌≤◌, ◌<◌, ◌≡◌, refl, ◌∙◌, false, Option, some, List, [], arith, ltb, ◌==◌,
  if◌then◌else◌, length, get_elem?, set, take, length-set, get_elem?-set_self,
}
use linux_multiarch_asm.Containers.Outcome.{ret}
use linux_multiarch_asm.Containers.Growth.{Allocates}
use linux_multiarch_asm.Containers.Memory.{int_lem}
use linux_multiarch_asm.Containers.StringPool.{StringPool, Compacted, reserve_buf}
use linux_multiarch_asm.Containers.StringPool.Compact.{live, compact-Packs}
use linux_multiarch_asm.Containers.StringPool.Offsets.{live-take}
use linux_multiarch_asm.Containers.StringPool.Reserve.{
  stored, packed_pool, space, used-le, packed-Blocks, packed-highest, packed-top_le,
}
use linux_multiarch_asm.Containers.StringPool.Layout.{offset, Texts, Texts-Blocks}

-- What `ReserveBuf` leaves: the same texts, without garbage, in a block that is large enough, and the
-- old block beside it.
pub record Reserved (newsize : ℕ) (p p' : StringPool) (m : ℕ → List ℕ) : Type 0 where
  pub texts : Texts p' m
  pub old : p'.old_buffer ≡ p.buffer
  pub room : newsize + 1 ≤ p'.buffer_size
  pub shrinks : p'.data_size ≤ p.data_size
  pub no_garbage : live (λ i. length (m i)) 0 p'.offsets + 1 ≡ p'.data_size
  pub highest : (k : ℕ) → 0 < length (m k) → ((j : ℕ) → k < j → m j ≡ []) → offset p' k ≡ p'.top
  pub top_le : p'.top ≤ p'.data_size
  pub same_num : p'.num ≡ p.num
  pub same_indices : p'.offsets_size ≡ p.offsets_size

-- The size that `ReserveBuf` allocates.
abbrev pub new_block : ℕ → StringPool → ℕ
new_block newsize p =
    if ltb (newsize + p.garbage_size * 2) (p.data_size * 2 + 4096)
    then (p.data_size * 2 + 4096 - p.garbage_size * 2) + 1
    else newsize + 1

pub new_block-lt :
    (newsize : ℕ) (p : StringPool)
    → newsize < 2 ^ 30
    → p.data_size < 2 ^ 29
    → new_block newsize p < 2 ^ 31
new_block-lt newsize p h h' = ground arith

pub new_block-ge : (newsize : ℕ) (p : StringPool) → newsize + 1 ≤ new_block newsize p
new_block-ge newsize p = ground arith

-- The new block with the empty string at its beginning.
abbrev start : List ℕ → Compacted
start fresh = record { cells = set fresh 0 0; used = 1; highest = 1 }

module _ (new_chars new_ints : ℕ → Option (List ℕ)) (chars : Allocates new_chars (2 ^ 31)) where
  -- Where allocations below 2 ^ 31 succeed, `ReserveBuf` of a size below 2 ^ 30 that the data do
  -- not exceed, of fewer than 2 ^ 29 characters, keeps all texts, leaves no garbage, keeps the old
  -- block beside the new one, which is larger than the size asked for, and puts the last string
  -- that is not empty at `Top`.
  pub reserve_buf-Reserved :
      (newsize : ℕ) (p : StringPool) (m : ℕ → List ℕ)
      → Texts p m
      → p.data_size ≤ newsize
      → newsize < 2 ^ 30
      → p.data_size < 2 ^ 29
      → (p' : StringPool) × (reserve_buf new_chars new_ints newsize p ≡ ret p')
        × Reserved newsize p p' m
  unfolding reserve_buf
  reserve_buf-Reserved newsize p m t enough small few =
      let b = Texts-Blocks p m t in
      let n = new_block newsize p in
      let lt = new_block-lt newsize p small few in
      let ge = new_block-ge newsize p in
      let (fresh, e, size) = chars.block n lt in
      let has_buffer : (length p.buffer == 0) ≡ false =
        ground (arith, t.layout.size, t.layout.fits, t.layout.started) in
      let has_offsets : ltb (length p.offsets) p.num ≡ false =
        ground (arith, t.layout.indices, t.layout.count) in
      let begins : ((start fresh).used ≡ 1)
          × ((start fresh).highest ≡ 1)
          × (length (start fresh).cells ≡ n)
          × (get_elem? (start fresh).cells 0 ≡ some 0) =
        (
          refl,
          refl,
          length-set fresh 0 0 ∙ size,
          get_elem?-set_self fresh 0 0 (omega (arith, size)),
        ) in
      let (r, done, packs) =
        compact-Packs p.buffer m t.clean (take p.num p.offsets) 0 (start fresh) (stored p m b) (
          omega (
            arith,
            live-take (λ i. length (m i)) 0 p.offsets p.num,
            t.layout.space,
            length-set fresh 0 0,
          )) in
      let fits : p.data_size + 1 ≤ n + 1 = omega arith in
      let held = packed-Blocks p m b n 1 (start fresh) r packs begins (omega arith) fits in
      (
        packed_pool p m b n r,
        rw (int_lem n lt, e, has_buffer, has_offsets, done) refl,
        record {
          texts = record {
            layout = held.layout;
            clean = t.clean;
            blank = held.blank;
            holds = held.holds;
          };
          old = refl;
          room = ge;
          shrinks =
              omega (arith, used-le p m b n 1 (start fresh) r packs begins (omega arith) fits);
          no_garbage = space p m b n 1 (start fresh) r packs begins (omega arith) fits;
          highest = packed-highest p m b n 1 (start fresh) r packs begins (omega arith) fits;
          top_le = packed-top_le p m b n 1 (start fresh) r packs begins (omega arith) fits;
          same_num = refl;
          same_indices = refl;
        },
      )
