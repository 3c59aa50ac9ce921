-- ===== src/Gfp/Used.antt =====
-- The areas of memory in a state that the allocator keeps, and areas with the same pages in use.
use grinch.Prelude.{ℕ, ◌+◌, ◌*◌, ◌%◌, ◌^◌, ◌<◌, ◌≡◌, refl, ◌≢◌, true, none, List, [], ◌∷◌}
use grinch.Vma.{page_size}
use grinch.Bitmap.Set.{holds}
use grinch.Bitmap.Find.{AreWords}
use grinch.Gfp.{MemoryArea, find_area, in_area}

-- An area with a page-aligned virtual range of the size of its bitmap, or with none.
pub record IsFine (area : MemoryArea) : Type 0 where
  pub ok_words : AreWords area.bitmap.bits
  pub small : area.bitmap.bit_max < 2 ^ 31
  pub unmapped : area.v.base ≡ 0 → area.v.end ≡ 0
  pub mapped : area.v.base ≢ 0 → area.v.end ≡ area.v.base + area.bitmap.bit_max * page_size
  pub even : area.v.base % page_size ≡ 0

-- The areas are fine, and their virtual ranges are apart.
abbrev pub IsValid : List MemoryArea → Type 0
IsValid [] = Unit
IsValid (area ∷ rest) =
    IsFine area
    × ((virt : ℕ) → in_area area virt ≡ true → find_area rest virt ≡ none)
    × IsValid rest

-- The same area with the same pages in use.
pub record IsAlike (area area' : MemoryArea) : Type 0 where
  pub same_p : area'.p ≡ area.p
  pub same_v : area'.v ≡ area.v
  pub same_valid : area'.valid ≡ area.valid
  pub same_max : area'.bitmap.bit_max ≡ area.bitmap.bit_max
  pub same_bits : (nr : ℕ) → holds area'.bitmap.bits nr ≡ holds area.bitmap.bits nr

abbrev pub AreAlike : List MemoryArea → List MemoryArea → Type 0
AreAlike [] [] = Unit
AreAlike (area ∷ rest) (area' ∷ rest') = IsAlike area area' × AreAlike rest rest'
AreAlike [] (area' ∷ rest') = ⊥
AreAlike (area ∷ rest) [] = ⊥

pub IsAlike-refl : (area : MemoryArea) → IsAlike area area
IsAlike-refl area = record {
  same_p = refl;
  same_v = refl;
  same_valid = refl;
  same_max = refl;
  same_bits = λ nr. refl;
}

pub AreAlike-refl : (areas : List MemoryArea) → AreAlike areas areas
AreAlike-refl [] = tt
AreAlike-refl (area ∷ rest) = (IsAlike-refl area, AreAlike-refl rest)
