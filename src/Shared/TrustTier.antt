-- ===== src/Shared/TrustTier.antt =====
-- src/shared/trust-tier.ts
pub data TrustTier : Type 0 where
  unverified conformance_passed production_proven : TrustTier
