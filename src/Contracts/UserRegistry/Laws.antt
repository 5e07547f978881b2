-- ===== src/Contracts/UserRegistry/Laws.antt =====
-- Which users the registry takes for compliant.
use railway.Base.{ℕ, ltb, ◌≤◌, ◌≡◌, ◌↔◌, true, false, ◌||◌, arith, inl, inr, Bool-cases}
use railway.Text.{Text, text_eq}
use railway.Contracts.MintEscrow.{zero_address, zero_bytes32}
use railway.Contracts.MintEscrow.Sound.{set_elim}
use railway.Contracts.UserRegistry.{
  max_risk_score, UserData, Managers, RegistryState, update_user, is_compliant, Registered,
  at_start, after_update, after_roles,
}

module _ (m : Managers) where
  -- Every user that is there has been given an attestation, and a score up to 100.
  pub record IsAttested (s : RegistryState m) : Type 0 where
    pub attested :
        (user : Text)
        → (s.users user).exists ≡ true
        → text_eq (s.users user).attestation_hash zero_bytes32 ≡ false
    pub scored : (user : Text) → (s.users user).exists ≡ true → (s.users user).risk_score ≤ 100

  update_user-IsAttested :
      (sender : Text) (now : ℕ) (user : Text) (risk : ℕ) (hash kind actor : Text)
      (s : RegistryState m)
      → IsAttested s
      → IsAttested (update_user m sender now user risk hash kind actor s)
  unfolding update_user
  update_user-IsAttested sender now user risk hash kind actor s ok =
      elim (Bool-cases (m.is_manager sender s.access)) [
        | inr denied ↦ rw denied ok
        | inl granted ↦
            elim (Bool-cases (text_eq user zero_address || text_eq actor zero_address)) [
              | inl nobody ↦ rw (granted, nobody) ok
              | inr somebody ↦ elim (Bool-cases (ltb 100 risk)) [
                | inl high ↦ rw (granted, somebody, high) ok
                | inr low ↦ elim (Bool-cases (text_eq hash zero_bytes32)) [
                  | inl bare ↦ rw (granted, somebody, low, bare) ok
                  | inr full ↦
                      rw (granted, somebody, low, full)
                        (record {
                          attested = λ k.
                              set_elim
                                (λ (d : UserData).
                                  d.exists ≡ true → text_eq d.attestation_hash zero_bytes32 ≡ false)
                                user k _ s.users (λ e h. full) (λ other. ok.attested k);
                          scored = λ k.
                              set_elim (λ (d : UserData). d.exists ≡ true → d.risk_score ≤ 100) user
                                k _ s.users (λ e h. ground (arith, low)) (λ other. ok.scored k);
                        })
                ]
              ]
            ]
      ]

  pub Registered-IsAttested : (s : RegistryState m) → Registered m s → IsAttested s
  Registered-IsAttested _ (at_start access) = record {
    attested = λ user h. cc;
    scored = λ user h. cc;
  }
  Registered-IsAttested _ (after_update sender now user risk hash kind actor s reached) =
      update_user-IsAttested sender now user risk hash kind actor s
        (Registered-IsAttested s reached)
  Registered-IsAttested _ (after_roles access s reached) =
      let ok = Registered-IsAttested s reached in
      record { attested = ok.attested; scored = ok.scored }

  -- In a registry that has been deployed and updated, a user is compliant exactly when it is there and
  -- its risk score is at most 91: the attestation has been seen to when it was registered.
  pub is_compliant_iff :
      (now : ℕ) (user : Text) (s : RegistryState m)
      → Registered m s
      → (is_compliant m now user s ≡ true)
        ↔ (((s.users user).exists ≡ true) × ((s.users user).risk_score ≤ max_risk_score))
  unfolding is_compliant
  is_compliant_iff now user s reached =
      let ok = Registered-IsAttested s reached in
      elim (Bool-cases (s.users user).exists) [
        | inr gone ↦ (λ h. absurd (ground arith), λ h. absurd (cc (gone, h.0)))
        | inl there ↦ (
          λ h. (there, ground (arith, ok.attested user there)),
          λ h. ground (arith, ok.attested user there),
        )
      ]
