-- ===== src/Keys/Disjoint.antt =====
-- Keys of several catalogs and families.
use aux_ducklake.Base.{◌≡◌, sym, ◌∙◌, ◌∷◌, ◌++◌, append_assoc}
use aux_ducklake.Bytes.{Bytes, IsU64}
use aux_ducklake.Bytes.BigEndian.{length-to_be_bytes, to_be_bytes_injective}
use aux_ducklake.Bytes.Prefix.{append_cancel}
use aux_ducklake.Ids.{CatalogId}
use aux_ducklake.Keys.{u64, catalog_prefix, family_prefix}
use aux_ducklake.Keys.Family.{KeyFamily, code, code_injective}

pub family_prefix_lem :
    (c : CatalogId) (f : KeyFamily) (x : Bytes)
    → family_prefix c f ++ x ≡ u64 c ++ (b'/' ∷ code f ∷ b'/' ∷ x)
unfolding family_prefix catalog_prefix
family_prefix_lem c f x = simp append_assoc

-- Two keys that are equal belong to one catalog and one family, and agree behind the prefix of
-- the family. So no row of one catalog or family can be read or written under a key of another.
pub family_prefix_injective :
    (c d : CatalogId) (f g : KeyFamily) (x y : Bytes)
    → IsU64 c
    → IsU64 d
    → family_prefix c f ++ x ≡ family_prefix d g ++ y
    → (c ≡ d) × (f ≡ g) × (x ≡ y)
family_prefix_injective c d f g x y hc hd e =
    let whole : u64 c ++ (b'/' ∷ code f ∷ b'/' ∷ x) ≡ u64 d ++ (b'/' ∷ code g ∷ b'/' ∷ y) =
      sym (family_prefix_lem c f x) ∙ e ∙ family_prefix_lem d g y in
    let (heads, tails) =
      append_cancel (u64 c) (u64 d) _ _ (length-to_be_bytes 8 c ∙ sym (length-to_be_bytes 8 d))
        whole in
    (to_be_bytes_injective 8 c d hc hd heads, code_injective f g (cc tails), cc tails)
