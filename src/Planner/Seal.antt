-- ===== src/Planner/Seal.antt =====
-- poc-setup-compatibility-planner.ts: `sealPocSetupCompatibilityCatalogV1`.
use chimp_maera.Common.{ok_injective, String, ◌≡◌, refl, subst, Result, ok, ◌>>=◌, on_ok}
use chimp_maera.Planner.{Catalog}
use chimp_maera.Planner.Values.{catalog_core}
use chimp_maera.Planner.Validate.{digest}

abbrev with_digest : Catalog → String → Catalog
with_digest c d = record c { provenance = record (c.provenance) { digest = d } }

module _ (sha256_hex : String → String) where
  -- `sealPocSetupCompatibilityCatalogV1`; the digest is that of the catalog with an empty digest
  unfoldable pub seal_catalog : Catalog → Result Catalog
  unfolding digest
  seal_catalog c = do d ← digest sha256_hex (catalog_core c); ok (with_digest c d)

  -- What a sealed catalog is: the validation computes the digest that it carries, whatever digest the
  -- catalog had before, and sealing it again changes nothing.
  pub record IsSealedCatalog (c s : Catalog) : Type 0 where
    pub digested : digest sha256_hex (catalog_core s) ≡ ok s.provenance.digest
    pub again : seal_catalog s ≡ ok s
    pub whatever : (d : String) → seal_catalog (with_digest c d) ≡ ok s

  -- Sealing gives a catalog with the digest that the validation computes of it; sealing it again, or
  -- sealing the catalog with another digest, gives the same.
  pub seal_catalog-IsSealedCatalog :
      (c : Catalog) {s : Catalog} → seal_catalog c ≡ ok s → IsSealedCatalog c s
  unfolding seal_catalog
  seal_catalog-IsSealedCatalog c h = on_ok (digest sha256_hex (catalog_core c)) _ h λ d p h1.
      subst (IsSealedCatalog c) (ok_injective h1) (record {
        digested = p;
        again = rw (p, seal_catalog) refl;
        whatever = λ e. rw (p, seal_catalog) refl;
      })
