-- ===== src/Characters/Acyclic.antt =====
-- characters/event_store.go, NormalizeGeneratedIdentityMergeEvents: the merges that it accepts.
use narou_viewer.Characters.Chains.{Acyclic, Next, Star, arrived, follow}
use narou_viewer.Characters.Identity.{IdentityMerge, Merges, add_merge, merged_into}
use narou_viewer.Prelude.{
  Bool-cases, String, arith, inl, inr, str_eq, str_eq_iff, subst, sym, ◌≡◌, ◌⊎◌,
}

Star-trans : {m : Merges} {c b a : String} → Star m b a → Star m c b → Star m c a
Star-trans arrived k = k
Star-trans (follow next h) k = follow next (Star-trans h k)

module _ (e : IdentityMerge) (m : Merges) where
  abbrev pub source : String
  source = e.source_character_id

  abbrev pub target : String
  target = e.target_character_id

  abbrev pub added : Merges
  added = add_merge e m

  -- A step of the new map is the new merge, or a step of the old map from another id.
  pub added-step : (a c : String) → Next added a c → ((a ≡ source) × (c ≡ target)) ⊎ Next m a c
  unfolding merged_into
  added-step a c next = elim (Bool-cases (str_eq source a)) [
    | inl t ↦ inl (sym ((str_eq_iff source a).0 t), ground arith)
    | inr f ↦ inr (ground arith)
  ]

  -- A chain to the source was one before, up to its first arrival.
  old-chain : {a : String} → Star added source a → Star m source a
  old-chain arrived = arrived
  old-chain (follow {a = a} {c = c} next rest) = elim (added-step a c next) [
    | inl (at, there) ↦ subst (Star m source) (sym at) arrived
    | inr old_step ↦ follow old_step (old-chain rest)
  ]

  -- A chain was one before, or goes through the new merge.
  split-chain :
      {b a : String} → Star added b a → Star m b a ⊎ (Star added source a × Star added b target)
  split-chain arrived = inl arrived
  split-chain {b = b} (follow {a = a} {c = c} next rest) = elim (added-step a c next) [
    | inl (at, there) ↦
        inr (subst (Star added source) (sym at) arrived, subst (Star added b) there rest)
    | inr old_step ↦ elim (split-chain rest) [
      | inl old ↦ inl (follow old_step old)
      | inr (before_it, after_it) ↦ inr (follow next before_it, after_it)
    ]
  ]

  pub add-Acyclic : Acyclic m → ¬ Star m source target → Acyclic added
  unfolding Acyclic
  add-Acyclic h apart a c next rest = elim (added-step a c next) [
    | inl (at, there) ↦
        apart (old-chain (subst (Star added source) there (subst (λ x. Star added x c) at rest)))
    | inr old_step ↦ elim (split-chain rest) [
      | inl old ↦ h a c old_step old
      | inr (before_it, after_it) ↦ apart (old-chain (Star-trans after_it (follow next before_it)))
    ]
  ]
