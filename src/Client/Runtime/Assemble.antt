-- ===== src/Client/Runtime/Assemble.antt =====
-- The authorizers of a session (`process_messages`, client/src/lib.rs).
use lfp_pipe.Base.{
  ◌≡◌, refl, sym, ap, subst, ◌∙◌, Bool, true, false, not, ◌&&◌, ◌||◌, Option, none, some, List, [],
  ◌∷◌, ◌++◌, any, any-In, find, find-some, arith, In, In-append, append-In_left, append-In_right,
  inl, inr, ◌⊎◌, ok, ok_or, bind-eq-ok, ensure-eq-ok, ok-injective, ok_or-ok, &&_split,
}
use lfp_pipe.Text.Ascii.{Str, str_eq, str_eq_sound}
use lfp_pipe.Config.Authorization.{ClientAuthorizationConfig, oidc_enabled}
use lfp_pipe.Config.Backend.{BackendRule}
use lfp_pipe.Config.Client.{ClientConfig}
use lfp_pipe.Client.Proxy.{BackendRuntime}
use lfp_pipe.Client.Runtime.{
  same_endpoint, no_acme_hostname, not_loaded, shares_endpoint, same_policy, policy_of, load_policy,
  or_existing, authorizer_for, backends_from, backends_of, acme_domain, check_acme,
}

-- A path that a policy's login answers.
abbrev pub policy_handles : ClientAuthorizationConfig → Str → Bool
policy_handles c path =
    oidc_enabled c && (str_eq path c.oidc_callback_path || str_eq path c.oidc_logout_path)

same_text : (p a b : Str) → str_eq p a ≡ true → str_eq p b ≡ true → str_eq a b ≡ true
same_text p a b e f = subst (λ t. str_eq t b ≡ true) (str_eq_sound p a e) f

either : (a b : Bool) → a || b ≡ true → (a ≡ true) ⊎ (b ≡ true)
either true b h = inl refl
either false b h = inr h

shares-handles :
    (c d : ClientAuthorizationConfig) (path : Str)
    → policy_handles c path ≡ true
    → policy_handles d path ≡ true
    → (oidc_enabled d && shares_endpoint d c) ≡ true
unfolding shares_endpoint
shares-handles c d path h k =
    let (ce, ch) = &&_split (oidc_enabled c) _ h in
    let (de, dh) = &&_split (oidc_enabled d) _ k in
    elim (either (str_eq path c.oidc_callback_path) (str_eq path c.oidc_logout_path) ch) [
      | inl p ↦
          elim (either (str_eq path d.oidc_callback_path) (str_eq path d.oidc_logout_path) dh) [
            | inl q ↦ rw (de, ce, same_text path c.oidc_callback_path d.oidc_callback_path p q) refl
            | inr q ↦
                rw (de, ce, same_text path c.oidc_callback_path d.oidc_logout_path p q)
                  (ground arith)
          ]
      | inr p ↦
          elim (either (str_eq path d.oidc_callback_path) (str_eq path d.oidc_logout_path) dh) [
            | inl q ↦
                rw (de, ce, same_text path c.oidc_logout_path d.oidc_callback_path p q)
                  (ground arith)
            | inr q ↦
                rw (de, ce, same_text path c.oidc_logout_path d.oidc_logout_path p q) (ground arith)
          ]
    ]

module _ {A : Type 0} (load : ClientAuthorizationConfig → Str → Option A) where
  -- The policies that are loaded so far: each has the authorizer that it loads, and no path is answered by
  -- the logins of two.
  pub record IsLoaded (authorizers : List (ClientAuthorizationConfig × A)) : Type 0 where
    pub loaded :
        (e : ClientAuthorizationConfig × A)
        → In e authorizers
        → (host : Str) × (load e.0 host ≡ some e.1)
    pub apart :
        (d e : ClientAuthorizationConfig × A) (path : Str)
        → In d authorizers
        → In e authorizers
        → policy_handles d.0 path ≡ true
        → policy_handles e.0 path ≡ true
        → d.1 ≡ e.1

  nothing-IsLoaded : IsLoaded []
  nothing-IsLoaded = record { loaded = λ e i. elim i [ ]; apart = λ d e path i k h g. elim i [ ] }

  no_clash :
      (authorizers : List (ClientAuthorizationConfig × A)) (policy : ClientAuthorizationConfig)
      (e : ClientAuthorizationConfig × A) (path : Str)
      → not (oidc_enabled policy && any (λ entry. shares_endpoint policy entry.0) authorizers)
        ≡ true
      → In e authorizers
      → policy_handles e.0 path ≡ true
      → policy_handles policy path ≡ true
      → ⊥
  no_clash authorizers policy e path n i h k =
      let (a, b) = &&_split (oidc_enabled policy) _ (shares-handles e.0 policy path h k) in
      let c = any-In (λ entry. shares_endpoint policy entry.0) authorizers i b in
      cc (rw (a, c) at n)

  add-IsLoaded :
      (authorizers : List (ClientAuthorizationConfig × A)) (policy : ClientAuthorizationConfig)
      (host : Str) (a : A)
      → IsLoaded authorizers
      → not (oidc_enabled policy && any (λ entry. shares_endpoint policy entry.0) authorizers)
        ≡ true
      → load policy host ≡ some a
      → IsLoaded (authorizers ++ (policy, a) ∷ [])
  add-IsLoaded authorizers policy host a l n e = record { loaded = loaded; apart = apart }
    where
      loaded :
          (x : ClientAuthorizationConfig × A)
          → In x (authorizers ++ (policy, a) ∷ [])
          → (host' : Str) × (load x.0 host' ≡ some x.1)
      loaded x i = elim (In-append x authorizers _ i) [
        | inl k ↦ l.loaded x k
        | inr (inl q) ↦ (host, ap (λ t. load t.0 host) q ∙ e ∙ ap (λ t. some t.1) (sym q))
        | inr (inr k) ↦ elim k [ ]
      ]

      apart :
          (x y : ClientAuthorizationConfig × A) (path : Str)
          → In x (authorizers ++ (policy, a) ∷ [])
          → In y (authorizers ++ (policy, a) ∷ [])
          → policy_handles x.0 path ≡ true
          → policy_handles y.0 path ≡ true
          → x.1 ≡ y.1
      apart x y path i k h g = elim (In-append x authorizers _ i) [
        | inl p ↦ elim (In-append y authorizers _ k) [
          | inl q ↦ l.apart x y path p q h g
          | inr (inl q) ↦ absurd (
              no_clash authorizers policy x path n p h
                (ap (λ t. policy_handles t.0 path) (sym q) ∙ g))
          | inr (inr q) ↦ elim q [ ]
        ]
        | inr (inl p) ↦ elim (In-append y authorizers _ k) [
          | inl q ↦ absurd (
              no_clash authorizers policy y path n q g
                (ap (λ t. policy_handles t.0 path) (sym p) ∙ h))
          | inr (inl q) ↦ ap (λ t. t.1) (p ∙ sym q)
          | inr (inr q) ↦ elim q [ ]
        ]
        | inr (inr p) ↦ elim p [ ]
      ]

  -- What one rule or the rest of the rules do to the list: it grows, and stays as it should be.
  record IsStep (before after : List (ClientAuthorizationConfig × A)) : Type 0 where
    kept : (e : ClientAuthorizationConfig × A) → In e before → In e after
    stays : IsLoaded before → IsLoaded after

  load_policy-IsStep :
      (hostname : Option Str) (before after : List (ClientAuthorizationConfig × A))
      (policy : ClientAuthorizationConfig) (a : A)
      → load_policy load hostname before policy ≡ ok (a, after)
      → IsStep before after × In (policy, a) after
  unfolding load_policy
  load_policy-IsStep hostname before after policy a h =
      let (n, h1) =
        ensure-eq-ok
          (not (oidc_enabled policy && any (λ entry. shares_endpoint policy entry.0) before))
          same_endpoint _ h in
      let (host, f, h2) = bind-eq-ok (ok_or hostname no_acme_hostname) _ h1 in
      let (b, g, h3) = bind-eq-ok (ok_or (load policy host) not_loaded) _ h2 in
      subst (λ p. IsStep before p.1 × In (policy, p.0) p.1) (ok-injective h3)
        (
          record {
            kept = λ e i. append-In_left e before ((policy, b) ∷ []) i;
            stays = λ l. add-IsLoaded before policy host b l n (ok_or-ok not_loaded g);
          },
          append-In_right (policy, b) before ((policy, b) ∷ []) (inl refl),
        )

  same_list_IsStep : (l : List (ClientAuthorizationConfig × A)) → IsStep l l
  same_list_IsStep l = record { kept = λ e i. i; stays = λ x. x }

  -- An authorizer is one of the list, under some policy.
  abbrev Listed : Option A → List (ClientAuthorizationConfig × A) → Type 0
  Listed none l = Unit
  Listed (some a) l = (policy : ClientAuthorizationConfig) × In (policy, a) l

  or_existing-IsStep :
      (hostname : Option Str) (before after : List (ClientAuthorizationConfig × A))
      (policy : ClientAuthorizationConfig) (o : Option (ClientAuthorizationConfig × A)) (a : A)
      → find (λ entry. same_policy entry.0 policy) before ≡ o
      → or_existing before o (load_policy load hostname before policy) ≡ ok (a, after)
      → IsStep before after × Listed (some a) after
  or_existing-IsStep hostname before after policy none a f h =
      let (s, i) = load_policy-IsStep hostname before after policy a h in (s, (policy, i))
  or_existing-IsStep hostname before after policy (some (p, x)) a f h =
      let (i, t) = find-some (λ entry. same_policy entry.0 policy) before f in
      subst (λ q. IsStep before q.1 × Listed (some q.0) q.1) (ok-injective h)
        (same_list_IsStep before, (p, i))

  authorizer_for-IsStep :
      (hostname : Option Str) (before after : List (ClientAuthorizationConfig × A))
      (o : Option ClientAuthorizationConfig) (a : Option A)
      → authorizer_for load hostname before o ≡ ok (a, after)
      → IsStep before after × Listed a after
  unfolding authorizer_for
  authorizer_for-IsStep hostname before after none a h =
      subst (λ q. IsStep before q.1 × Listed q.0 q.1) (ok-injective h) (same_list_IsStep before, tt)
  authorizer_for-IsStep hostname before after (some policy) a h =
      let ((x, l), f, g) =
        bind-eq-ok
          (or_existing before (find (λ entry. same_policy entry.0 policy) before)
            (load_policy load hostname before policy))
          _ h in
      subst (λ q. IsStep before q.1 × Listed q.0 q.1) (ok-injective g)
        (or_existing-IsStep hostname before l policy _ x refl f)

  Listed-kept :
      (before after : List (ClientAuthorizationConfig × A)) (a : Option A)
      → IsStep before after
      → Listed a before
      → Listed a after
  Listed-kept before after none s l = tt
  Listed-kept before after (some a) s (policy, i) = (policy, s.kept (policy, a) i)

  -- All backends have their authorizers from one list.
  record IsAssembled (before : List (ClientAuthorizationConfig × A))
      (backends : List (BackendRuntime A)) : Type 0 where
    after : List (ClientAuthorizationConfig × A)
    step : IsStep before after
    listed : (b : BackendRuntime A) → In b backends → Listed b.authorization after

  backends_from-IsAssembled :
      (config : ClientConfig) (hostname : Option Str)
      (before : List (ClientAuthorizationConfig × A)) (rules : List BackendRule)
      (backends : List (BackendRuntime A))
      → backends_from load config hostname before rules ≡ ok backends
      → IsAssembled before backends
  unfolding backends_from
  backends_from-IsAssembled config hostname before [] backends h =
      subst (IsAssembled before) (ok-injective h)
        (record { after = before; step = same_list_IsStep before; listed = λ b i. elim i [ ] })
  backends_from-IsAssembled config hostname before (rule ∷ rules) backends h =
      let ((a, l), f, h1) =
        bind-eq-ok (authorizer_for load hostname before (policy_of config rule)) _ h in
      let (rest, g, h2) = bind-eq-ok (backends_from load config hostname l rules) _ h1 in
      let (s, first) = authorizer_for-IsStep hostname before l (policy_of config rule) a f in
      let more = backends_from-IsAssembled config hostname l rules rest g in
      let one : BackendRuntime A = record { rule = rule; authorization = a } in
      let all_listed : (b : BackendRuntime A)
          → In b (one ∷ rest)
          → Listed b.authorization more.after =
        λ b i. elim i [
          | inl q ↦
              subst (λ t. Listed t.authorization more.after) (sym q)
                (Listed-kept l more.after a more.step first)
          | inr k ↦ more.listed b k
        ] in
      subst (IsAssembled before) (ok-injective h2) (record {
        after = more.after;
        step = record {
          kept = λ e i. more.step.kept e (s.kept e i);
          stays = λ x. more.step.stays (s.stays x);
        };
        listed = all_listed;
      })

  Listed-apart :
      (l : List (ClientAuthorizationConfig × A)) (x y : Option A) (a b : A)
      → IsLoaded l
      → Listed x l
      → Listed y l
      → x ≡ some a
      → y ≡ some b
      → (c d : ClientAuthorizationConfig) × (host other : Str) × (load c host ≡ some a)
        × (load d other ≡ some b)
        × ((path : Str) → policy_handles c path ≡ true → policy_handles d path ≡ true → a ≡ b)
  Listed-apart l none y a b z u v e f = cc
  Listed-apart l (some x) none a b z u v e f = cc
  Listed-apart l (some x) (some y) a b z (c, i) (d, k) e f =
      let p : x ≡ a = cc in
      let q : y ≡ b = cc in
      let (host, r) = z.loaded (c, x) i in
      let (other, s) = z.loaded (d, y) k in
      (
        c,
        d,
        host,
        other,
        r ∙ ap some p,
        s ∙ ap some q,
        λ path m n. sym p ∙ z.apart (c, x) (d, y) path i k m n ∙ q,
      )

  pub backends_of-apart :
      (config : ClientConfig) (backends : List (BackendRuntime A))
      → backends_of load config ≡ ok backends
      → (x y : BackendRuntime A) (a b : A) → In x backends
      → In y backends
      → x.authorization ≡ some a
      → y.authorization ≡ some b
      → (c d : ClientAuthorizationConfig) × (host other : Str) × (load c host ≡ some a)
        × (load d other ≡ some b)
        × ((path : Str) → policy_handles c path ≡ true → policy_handles d path ≡ true → a ≡ b)
  unfolding backends_of
  backends_of-apart config backends h x y a b i k e f =
      let (bs, g, h1) =
        bind-eq-ok (backends_from load config (acme_domain config.acme) [] config.backend_rules) _
          h in
      let (u, r, h2) = bind-eq-ok (check_acme config.acme bs) _ h1 in
      let same : bs ≡ backends = ok-injective h2 in
      let m =
        backends_from-IsAssembled config (acme_domain config.acme) [] config.backend_rules bs g in
      Listed-apart m.after x.authorization y.authorization a b (m.step.stays nothing-IsLoaded)
        (m.listed x (subst (In x) (sym same) i)) (m.listed y (subst (In y) (sym same) k)) e f
