-- ===== src/Credential/Picks.antt =====
-- What `SelectForTenantExcluding` of internal/service/provider_credential.go chooses.
use mathlib.Core.Path.{subst}
use license_server_ai.Base.{
  ℕ, String, ◌≡◌, ◌≢◌, refl, sym, ap, eq_iff, true, false, Option, none, some, List, [], ◌∷◌, ◌⊎◌,
  arith, Mem, here, there, filter_if, Mem-filter_if, filter_if-Mem, Bool-cases, inl, inr,
}
use license_server_ai.Model.Credential.{ProviderCredential, down, is_down}
use license_server_ai.Database.Core.{Db, Tables, tick}
use license_server_ai.Database.Ends.{Ends, returns, raises, Ends-bind, recover-Ends, read-then}
use license_server_ai.Database.Attempt.{act-Ends}
use license_server_ai.Credential.Selection.{
  candidate, usable, excluded_by, preferred, better, first_preferred, take_credential,
  select_for_tenant_excluding, used_at, with_credentials, change_credential, update_credential,
}

-- `c` is on the list, and none of the list has to come before it.
abbrev First : List ProviderCredential → ProviderCredential → Type 0
First cs c = Mem c cs × ((e : ProviderCredential) → Mem e cs → preferred e c ≡ false)

preferred_irrefl : (c : ProviderCredential) → preferred c c ≡ false
unfolding preferred
preferred_irrefl c = ground arith

preferred-asym : (c d : ProviderCredential) → preferred c d ≡ true → preferred d c ≡ false
unfolding preferred
preferred-asym c d h = ground arith

preferred-behind :
    (c d e : ProviderCredential)
    → preferred d c ≡ false
    → preferred e d ≡ false
    → preferred e c ≡ false
unfolding preferred
preferred-behind c d e h k = ground arith

better-First :
    (c d : ProviderCredential) (cs : List ProviderCredential)
    → First cs d
    → First (c ∷ cs) (better c (some d))
better-First c d cs (m, least) = elim (Bool-cases (preferred d c)) [
  | inl b ↦ rw b (there m, before_d b)
  | inr b ↦ rw b (here refl, before_c b)
]
  where
    before_d :
        preferred d c ≡ true → (e : ProviderCredential) → Mem e (c ∷ cs) → preferred e d ≡ false
    before_d b e (here same) = subst (λ x. preferred x d ≡ false) (sym same) (preferred-asym d c b)
    before_d b e (there n) = least e n

    before_c :
        preferred d c ≡ false → (e : ProviderCredential) → Mem e (c ∷ cs) → preferred e c ≡ false
    before_c b e (here same) = subst (λ x. preferred x c ≡ false) (sym same) (preferred_irrefl c)
    before_c b e (there n) = preferred-behind c d e b (least e n)

better-none : (c : ProviderCredential) → First (c ∷ []) c
better-none c = (here refl, alone)
  where
    alone : (e : ProviderCredential) → Mem e (c ∷ []) → preferred e c ≡ false
    alone e (here same) = subst (λ x. preferred x c ≡ false) (sym same) (preferred_irrefl c)
    alone e (there m) = elim m [ ]

-- The answer of the query: nothing if the list is empty, or the first of it.
abbrev Answers : List ProviderCredential → Option ProviderCredential → Type 0
Answers cs none = cs ≡ []
Answers cs (some c) = First cs c

first_preferred-Answers : (cs : List ProviderCredential) → Answers cs (first_preferred cs)
unfolding first_preferred
first_preferred-Answers [] = refl
first_preferred-Answers (c ∷ cs) = go (first_preferred cs) (first_preferred-Answers cs)
  where
    go : (o : Option ProviderCredential) → Answers cs o → First (c ∷ cs) (better c o)
    go none h = subst (λ xs. First (c ∷ xs) c) (sym h) (better-none c)
    go (some d) h = better-First c d cs h

-- What no id excludes has none of the ids.
excluded_by-none :
    (c : ProviderCredential) (ids : List String)
    → excluded_by ids c ≡ false
    → (id : String) → Mem id ids
    → c.id ≢ id
unfolding excluded_by
excluded_by-none c [] h id m e = elim m [ ]
excluded_by-none c (x ∷ ids) h id (here same) e = ground (arith, eq_iff c.id x, e, same)
excluded_by-none c (x ∷ ids) h id (there m) e = excluded_by-none c ids (ground arith) id m e

module _ (now : ℕ) (tenant provider mode : String) (excluded : List String) (before : Tables) where
  abbrev Fits : ProviderCredential → Type 0
  Fits c = Mem c before.provider_credentials × (candidate tenant provider mode excluded c ≡ true)

  -- The credential that is returned, and what is stored of it.
  pub record Picked (c : ProviderCredential) (t : Tables) : Type 0 where
    pub row : ProviderCredential
    pub fits : Fits row
    pub enabled : row.enabled ≡ true
    pub up : row.health_status ≢ down
    pub same_provider : row.provider ≡ provider
    pub not_excluded : (id : String) → Mem id excluded → row.id ≢ id
    pub first : (e : ProviderCredential) → Fits e → preferred e row ≡ false
    pub returned : c ≡ used_at now row
    pub same_id : c.id ≡ row.id
    pub used : c.last_used_at ≡ some now
    pub stored :
        (t ≡ before) ⊎ (t ≡ with_credentials (change_credential row.id (used_at now)) before)

  candidate_parts :
      (c : ProviderCredential)
      → candidate tenant provider mode excluded c ≡ true
      → (c.enabled ≡ true) × (c.health_status ≢ down) × (c.provider ≡ provider)
  unfolding candidate usable
  candidate_parts c h = (
    ground arith,
    (λ e. ground (arith, ap is_down e)),
    ground (arith, eq_iff c.provider provider),
  )

  excluded_part :
      (c : ProviderCredential)
      → candidate tenant provider mode excluded c ≡ true
      → excluded_by excluded c ≡ false
  unfolding candidate
  excluded_part c h = ground arith

  picked :
      (c : ProviderCredential) (t : Tables)
      → First (filter_if (candidate tenant provider mode excluded) before.provider_credentials) c
      → (t ≡ before) ⊎ (t ≡ with_credentials (change_credential c.id (used_at now)) before)
      → Picked (used_at now c) t
  picked c t (m, least) s =
      let fits : Fits c =
        Mem-filter_if (candidate tenant provider mode excluded) c before.provider_credentials m in
      let (on, up, same) = candidate_parts c fits.1 in
      record {
        row = c;
        fits = fits;
        enabled = on;
        up = up;
        same_provider = same;
        not_excluded = excluded_by-none c excluded (excluded_part c fits.1);
        first = λ e (n, h). least e (filter_if-Mem _ e _ n h);
        returned = refl;
        same_id = refl;
        used = refl;
        stored = s;
      }

update_credential-Ends :
    {Q : Unit {0} → Tables → Type 0} {E : Tables → Type 0} (id : String)
    (f : ProviderCredential → ProviderCredential) (d : Db)
    → E d.tables
    → Q tt (with_credentials (change_credential id f) d.tables)
    → Ends Q E (update_credential id f d)
unfolding update_credential
update_credential-Ends id f d e q = act-Ends (λ _. tt) _ d e q

take_credential-Picked :
    (now : ℕ) (tenant provider mode : String) (excluded : List String) (d : Db)
    (o : Option ProviderCredential)
    → Answers (filter_if (candidate tenant provider mode excluded) d.provider_credentials) o
    → Ends
        (Picked now tenant provider mode excluded d.tables)
        (λ t. t ≡ d.tables)
        (take_credential now o (tick d))
unfolding take_credential
take_credential-Picked now tenant provider mode excluded d none h = raises refl
take_credential-Picked now tenant provider mode excluded d (some c) h =
    Ends-bind
      (λ _ t.
        (t ≡ d.tables) ⊎ (t ≡ with_credentials (change_credential c.id (used_at now)) d.tables))
      _ _ (tick d)
      (recover-Ends {E = λ t. t ≡ d.tables} _ tt (tick d)
        (update_credential-Ends c.id (used_at now) (tick d) refl (inr refl)) (λ t e. inl e))
      (λ _ d' s. returns (picked now tenant provider mode excluded d.tables c d'.tables h s))

-- SelectForTenantExcluding returns a stored credential that is enabled, not down, of the provider,
-- the tenant and the mode, and not excluded, such that no other of these has to come before it;
-- it stores and returns the time of its use, or, when that statement fails, stores nothing; when
-- it fails it changes nothing.
pub select_for_tenant_excluding-Picked :
    (now : ℕ) (tenant provider mode : String) (excluded : List String) (d : Db)
    → Ends
        (Picked now tenant provider mode excluded d.tables)
        (λ t. t ≡ d.tables)
        (select_for_tenant_excluding now tenant provider mode excluded d)
unfolding select_for_tenant_excluding
select_for_tenant_excluding-Picked now tenant provider mode excluded d =
    read-then _ _ d
      (take_credential-Picked now tenant provider mode excluded d _ (first_preferred-Answers _))
      refl
