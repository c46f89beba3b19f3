-- ===== src/Tags.antt =====
-- src/src/libs/multiboot2.h: the chain of tags that GRUB leaves in memory, and the loop
-- `for (;;) { … cursor += step; }` that walks it in src/src/classes/pmm.class.h,
-- src/src/classes/initrd.class.h, src/src/classes/multiboot.class.h and src/src/kernel.cpp.
-- The memory is read by 32-bit words.
use shiro.Base.{
  ℕ, zero, suc, ◌+◌, ◌*◌, ◌/◌, ◌^◌, ◌<◌, ◌≡◌, ◌≢◌, refl, true, false, Option, none, some, List, [],
  ◌∷◌, ◌==◌, add32, sub32, mul32, clear_low, arith, length,
}

abbrev pub Words : Type 0
Words = ℕ → ℕ

abbrev pub tag_end : ℕ
tag_end = 0

abbrev pub tag_cmdline : ℕ
tag_cmdline = 1

abbrev pub tag_module : ℕ
tag_module = 3

abbrev pub tag_basic_meminfo : ℕ
tag_basic_meminfo = 4

abbrev pub tag_mmap : ℕ
tag_mmap = 6

abbrev pub tag_framebuffer : ℕ
tag_framebuffer = 8

abbrev pub memory_available : ℕ
memory_available = 1

-- `mb2_tag`: type and size, then the fields of the kind of tag.
abbrev pub tag_type : Words → ℕ → ℕ
tag_type w tag = w tag

abbrev pub tag_size : Words → ℕ → ℕ
tag_size w tag = w (tag + 4)

abbrev pub word64 : Words → ℕ → ℕ
word64 w a = w a + 2 ^ 32 * w (a + 4)

-- `mb2_tag_mmap` and `mb2_mmap_entry`.
abbrev pub entry_size : Words → ℕ → ℕ
entry_size w tag = w (tag + 8)

abbrev pub entry_count : Words → ℕ → ℕ
entry_count w tag = sub32 (tag_size w tag) 16 / entry_size w tag

abbrev pub entry_at : Words → ℕ → ℕ → ℕ
entry_at w tag i = add32 (tag + 16) (mul32 i (entry_size w tag))

abbrev pub entry_base : Words → ℕ → ℕ
entry_base w e = word64 w e

abbrev pub entry_length : Words → ℕ → ℕ
entry_length w e = word64 w (e + 8)

abbrev pub entry_type : Words → ℕ → ℕ
entry_type w e = w (e + 16)

-- `uint32_t step = (tag->size + 7) & ~7u; cursor += step;`
abbrev pub next_tag : Words → ℕ → ℕ
next_tag w tag = add32 tag (clear_low 8 (add32 (tag_size w tag) 7))

-- What a loop's body does: go on, return, or divide by zero.
pub data Next (S : Type 0) : Type 0 where
  next : S → Next S
  done : S → Next S
  fault : Next S

-- The tags of a chain that ends: their addresses.
abbrev pub TagsAt : Words → ℕ → List ℕ → Type 0
TagsAt w a [] = tag_type w a ≡ tag_end
TagsAt w a (t ∷ ts) = (t ≡ a) × (tag_type w a ≢ tag_end) × TagsAt w (next_tag w a) ts

module _ {S : Type 0} (w : Words) (body : ℕ → S → Next S) where
  -- The loop; `none` is a fault, or more tags than rounds.
  unfoldable pub walk : ℕ → ℕ → S → Option S
  walk zero a s = none
  walk (suc f) a s = elim (tag_type w a == tag_end) [
    | true ↦ some s
    | false ↦ elim (body a s) [
      | next s' ↦ walk f (next_tag w a) s'
      | done s' ↦ some s'
      | fault ↦ none
    ]
  ]

  unfoldable pub run_tags : List ℕ → S → Option S
  run_tags [] s = some s
  run_tags (t ∷ ts) s = elim (body t s) [
    | next s' ↦ run_tags ts s'
    | done s' ↦ some s'
    | fault ↦ none
  ]

  step-cong :
      (x : Next S) (k k' : S → Option S)
      → ((s : S) → k s ≡ k' s)
      → ◌≡◌ {A = Option S}
          (elim x [ next s' ↦ k s' | done s' ↦ some s' | fault ↦ none ])
          (elim x [ next s' ↦ k' s' | done s' ↦ some s' | fault ↦ none ])
  step-cong (next s) k k' h = h s
  step-cong (done s) k k' h = refl
  step-cong fault k k' h = refl

  -- With more rounds than tags the loop treats each tag of the chain once, in order.
  pub walk-run_tags :
      (f a : ℕ) (ts : List ℕ) (s : S) → TagsAt w a ts → length ts < f → walk f a s ≡ run_tags ts s
  unfolding walk run_tags
  walk-run_tags zero a ts s at enough = absurd (omega arith)
  walk-run_tags (suc f) a [] s at enough = rw (at, walk)
  walk-run_tags (suc f) a (t ∷ ts) s at enough =
      let on : (tag_type w a == tag_end) ≡ false = ground (arith, at.1) in
      rw (at.0, walk, on)
        (step-cong (body a s) (walk f (next_tag w a)) (run_tags ts)
          (λ s'. walk-run_tags f (next_tag w a) ts s' at.2 (omega arith)))
