-- ===== src/Fixture/Serve/Renewal.antt =====
-- What the router advertisements say while prefixes are renewed.
use landscape_openwrt.Base.{
  ℕ, zero, suc, ◌+◌, ◌≤◌, ◌≡◌, refl, ap, true, not, List, [], ◌∷◌, keep_if, map, ◌∙◌, All, arith,
  eqb, Text,
}
use landscape_openwrt.Script.{Machine}
use landscape_openwrt.Fixture.Advert.{
  PrefixInfo, Packet, prefix_info, prefix_text, prefixes_from, advertisement,
}
use landscape_openwrt.Fixture.Serve.{Service, advertise, signal, Reach, here, next}

-- The prefixes from which new connections may still take their source.
abbrev pub preferred : List PrefixInfo → List PrefixInfo
preferred = keep_if (λ p. not (eqb p.preferredlifetime 0))

module _ (m : Machine) where
  preferred-prefixes_from :
      (stage first count : ℕ)
      → first + count ≡ stage
      → preferred (prefixes_from m stage first (suc count)) ≡ prefix_info m stage stage ∷ []
  unfolding prefixes_from prefix_info
  preferred-prefixes_from stage first zero h =
      let e : first ≡ stage = omega arith in rw e (ground arith)
  preferred-prefixes_from stage first (suc count) h =
      ground (arith, preferred-prefixes_from stage (first + 1) count)

  -- The prefixes of the stages from `first` on.
  abbrev pub stage_prefixes : ℕ → ℕ → List Text
  stage_prefixes first zero = []
  stage_prefixes first (suc count) = prefix_text m first ∷ stage_prefixes (first + 1) count

  prefixes-prefixes_from :
      (stage first count : ℕ)
      → map (λ p. p.prefix) (prefixes_from m stage first count) ≡ stage_prefixes first count
  unfolding prefixes_from prefix_info
  prefixes-prefixes_from stage first zero = refl
  prefixes-prefixes_from stage first (suc count) =
      ap (λ (ts : List Text). prefix_text m first ∷ ts)
        (prefixes-prefixes_from stage (first + 1) count)

  preferred_prefix :
      (stage : ℕ) → map (λ p. p.prefix) (prefix_info m stage stage ∷ []) ≡ prefix_text m stage ∷ []
  unfolding prefix_info
  preferred_prefix stage = refl

  -- An advertisement of a stage: it makes no default route, its prefixes are those of the stages from 1
  -- to this one, in their order, and only that of the stage itself is preferred.
  abbrev pub IsRenewal : ℕ → Packet → Type 0
  IsRenewal stage p =
      (p.routerlifetime ≡ 0)
      × (map (λ i. i.prefix) p.prefixes ≡ stage_prefixes 1 stage)
      × (1 ≤ stage → map (λ i. i.prefix) (preferred p.prefixes) ≡ prefix_text m stage ∷ [])

  pub advertisement-IsRenewal :
      (mac : Text) (stage : ℕ) → IsRenewal stage (advertisement m mac stage)
  unfolding advertisement
  advertisement-IsRenewal mac zero = (refl, prefixes-prefixes_from 0 1 0, λ h. absurd (omega arith))
  advertisement-IsRenewal mac (suc n) = (
    refl,
    prefixes-prefixes_from (suc n) 1 (suc n),
    λ h.
        ap (map (λ i. i.prefix)) (preferred-prefixes_from (suc n) 1 n (omega arith))
        ∙ preferred_prefix (suc n),
  )

  module _ (root mac : Text) where
    -- Whatever is written to the stage file meanwhile: every packet that the service sends is an
    -- advertisement of some stage, which makes no default route, has the prefixes of the stages from 1 to
    -- that one, and prefers only that of the stage itself.
    pub Reach-renewals :
        (s t : Service)
        → All (λ p. (stage : ℕ) × IsRenewal stage p) s.sent
        → Reach m root mac s t
        → All (λ p. (stage : ℕ) × IsRenewal stage p) t.sent
    Reach-renewals s t h here = h
    Reach-renewals s t h (next r (advertise u stage running found)) =
        ((stage, advertisement-IsRenewal mac stage), Reach-renewals s u h r)
    Reach-renewals s t h (next r (signal u)) = Reach-renewals s u h r

    -- Once the signal came, nothing more is sent.
    pub Reach-stopped :
        (s t : Service)
        → s.stopped ≡ true
        → Reach m root mac s t
        → (t.sent ≡ s.sent) × (t.stopped ≡ true)
    Reach-stopped s t h here = (refl, h)
    Reach-stopped s t h (next r (advertise u stage running found)) =
        let (e, stopped) = Reach-stopped s u h r in cc
    Reach-stopped s t h (next r (signal u)) = let (e, stopped) = Reach-stopped s u h r in (e, refl)
