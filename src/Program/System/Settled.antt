-- ===== src/Program/System/Settled.antt =====
-- The API server follows the imports, in whatever order they and the push requests come.
use mathlib.Core.List.{Memᴰ}
use federation.Common.{
  ◌≡◌, ◌≢◌, refl, sym, ap, subst, ◌∙◌, ◌⊎◌, inl, inr, Bool, true, false, Option, none, some, List,
  [], ◌∷◌, ◌++◌, Text, text_eq, text_eq_iff, Memᴰ-append_left, Memᴰ-append_right, Memᴰ-append_cases,
}
use federation.Common.GoMap.{lookup, text_key}
use federation.Common.Outcomes.{Outcome, done, fail, panic}
use federation.Config.{Federation}
use federation.Kubernetes.{ServiceLister}
use federation.Xds.{PushRequest}
use federation.Fds.{Codec}
use federation.Fds.Store.{ImportedServiceStore}
use federation.Fds.Import.{handle_cases, import_pushes}
use federation.Istio.{Library}
use federation.Kube.Sync.{for_each}
use federation.Kube.Sync.Loops.{for_each_does}
use federation.Kube.Manager.{
  Reconciler, ReconcilerManager, reconcile_all, reconcile_all_ok_iff, on_request, run_found, logged,
}
use federation.Program.Reconcilers.{Cluster}
use federation.Program.System.{
  State, VisitsReconcilers, manager, is_error, run_fails, noted, Move, imported, asked, received,
  Reach, started, later,
}
use federation.Program.System.Apart.{different}
use federation.Program.System.Kinds.{Kind, ran-Synced, kept_by-Synced, kind_served}

-- A request for the type waits.
abbrev pub IsAwaited : Text → List PushRequest → Type 0
IsAwaited url pending = (q : PushRequest) × Memᴰ q pending × (q.type_url ≡ url)

logged_state : {S : Type 0} (x : S × Outcome (Unit {0})) → (logged x).0 ≡ x.0
logged_state (s, done u) = refl
logged_state (s, fail e) = refl
logged_state (s, panic) = refl

-- A run without a panic, whose error is noted, ended well if none is.
well_of : {S : Type 0} (x : S × Outcome (Unit {0})) → is_error x.1 ≡ false → x.1 ≡ done tt
well_of (s, done u) h = refl
well_of (s, fail e) h = absurd (cc)
well_of (s, panic) h = absurd (cc)

module _ (url : Text) where
  -- It waits still if another one is taken out.
  pub IsAwaited-without :
      (before after : List PushRequest) (q : PushRequest)
      → q.type_url ≢ url
      → IsAwaited url (before ++ q ∷ after)
      → IsAwaited url (before ++ after)
  IsAwaited-without before after q other (p, m, e) = elim (Memᴰ-append_cases before m) [
    | inl early ↦ (p, Memᴰ-append_left early after, e)
    | inr late ↦ (p, Memᴰ-append_right before (tail_of late), e)
  ]
    where
      tail_of : Memᴰ p (q ∷ after) → Memᴰ p after
      tail_of (Memᴰ.head same) =
          absurd (other (ap (λ (x : PushRequest). x.type_url) (sym same) ∙ e))
      tail_of (Memᴰ.tail m') = m'

  IsAwaited-more :
      (pending more : List PushRequest) → IsAwaited url pending → IsAwaited url (pending ++ more)
  IsAwaited-more pending more (p, m, e) = (p, Memᴰ-append_left m more, e)

  pub IsAwaited-late :
      (pending more : List PushRequest) → IsAwaited url more → IsAwaited url (pending ++ more)
  IsAwaited-late pending more (p, m, e) = (p, Memᴰ-append_right pending m, e)

module _ {S : Type 0} {cluster : Cluster S} {lib : Library} {cfg : Federation} {ns : Text}
    {lister : ServiceLister} (kind : Kind cluster lib cfg ns lister) where
  abbrev reconcilers_of : ImportedServiceStore → ReconcilerManager S
  reconcilers_of store = manager cluster lib cfg ns lister store

  -- The first run of all reconcilers brings the kind in sync.
  reconcile_all-Synced :
      (order : ReconcilerManager S → List (Reconciler S)) (store : ImportedServiceStore) (s : S)
      → VisitsReconcilers order
      → (reconcile_all order (reconcilers_of store) s).1 ≡ done tt
      → kind.Synced store (reconcile_all order (reconcilers_of store) s).0
  reconcile_all-Synced order store s each well =
      let m = reconcilers_of store in
      let t = (reconcile_all order m s).0 in
      let loop : for_each (λ (r : Reconciler S). r.reconcile) (order m) s ≡ (t, done tt) =
        (reconcile_all_ok_iff order m s t).0 (ap (λ (o : Outcome Unit). (t, o)) well) in
      let (r, found, q) = kind_served kind store in
      subst (λ (x : S × Outcome (Unit {0})). kind.Synced store x.0) loop
        (for_each_does (λ (r : Reconciler S). r.reconcile) (λ u. Unit) (kind.Synced store) (order m)
          r (each.each m kind.url r found) (λ b n u p h. tt)
          (λ u p h. ran-Synced kind store r q u h)
          (λ b n u p h. let (url, at) = each.only m b n in kept_by-Synced kind store url b at u p h)
          s tt (ap (λ (x : S × Outcome (Unit {0})). x.1) loop))

  -- A request for another type leaves it in sync.
  pub on_request-Synced :
      (store : ImportedServiceStore) (q : PushRequest) (s : S)
      → q.type_url ≢ kind.url
      → kind.Synced store s
      → kind.Synced store (on_request (reconcilers_of store) q s).0
  unfolding on_request
  on_request-Synced store q s other p = found (lookup q.type_url (reconcilers_of store)) refl
    where
      found :
          (o : Option (Reconciler S))
          → lookup q.type_url (reconcilers_of store) ≡ o
          → kind.Synced store (run_found o s).0
      found none e = p
      found (some r) e = elim (kind.role store q.type_url r e) [
        | inl (this, same) ↦ absurd (other this)
        | inr (ne, keeps) ↦ rw (logged_state (r.reconcile s)) (keeps s p)
      ]

  -- A request for its type brings it in sync, if the run is without an error.
  pub on_request-syncs :
      (store : ImportedServiceStore) (q : PushRequest) (s : S)
      → q.type_url ≡ kind.url
      → run_fails (lookup q.type_url (reconcilers_of store)) s ≡ false
      → kind.Synced store (on_request (reconcilers_of store) q s).0
  unfolding on_request
  on_request-syncs store q s this well =
      let (r, found, e) = kind_served kind store in
      let here : lookup q.type_url (reconcilers_of store) ≡ some r =
        ap (λ u. lookup u (reconcilers_of store)) this ∙ found in
      rw here (
        rw (logged_state (r.reconcile s))
          (ran-Synced kind store r e s (well_of (r.reconcile s) (rw here at well))))

module _ {S : Type 0} {cluster : Cluster S} {lib : Library} {cfg : Federation} {ns : Text}
    {lister : ServiceLister} (c : Codec) (kind : Kind cluster lib cfg ns lister) where
  -- A request for the kind waits, or its last run had an error, or it is in sync.
  abbrev pub Settled : State S → Type 0
  Settled st =
      IsAwaited kind.url st.pending ⊎ ((st.failed kind.url ≡ true) ⊎ kind.Synced st.store st.server)

  with_more :
      (st : State S) (more : List PushRequest)
      → Settled st
      → Settled (record {
        store = st.store;
        pending = st.pending ++ more;
        server = st.server;
        failed = st.failed;
      })
  with_more st more (inl waits) = inl (IsAwaited-more kind.url st.pending more waits)
  with_more st more (inr rest) = inr rest

  Move-Settled :
      {st st' : State S} → Move cluster lib cfg ns lister c st st' → Settled st → Settled st'
  Move-Settled {st} (imported source resources) settled =
      elim (handle_cases c source resources st.store) [
        | inl (ss, d, e) ↦
            inl (rw e (IsAwaited-late kind.url st.pending import_pushes kind.asked_for))
        | inr (x, u, e) ↦ rw e (with_more st [] settled)
      ]
  Move-Settled {st} (asked requests) settled = with_more st requests settled
  Move-Settled {st} (received before after q e calm) settled =
      by_type (text_eq q.type_url kind.url) refl settled
    where
      m : ReconcilerManager S
      m = manager cluster lib cfg ns lister st.store

      after_run : Bool → State S
      after_run b = record {
        store = st.store;
        pending = before ++ after;
        server = (on_request m q st.server).0;
        failed = noted q.type_url b st.failed;
      }

      its_own :
          (b : Bool)
          → run_fails (lookup q.type_url m) st.server ≡ b
          → text_eq q.type_url kind.url ≡ true
          → Settled (after_run b)
      its_own true f h = inr (inl (rw h refl))
      its_own false f h = inr (
          inr
            (on_request-syncs kind st.store q st.server ((text_eq_iff q.type_url kind.url).0 h) f))

      by_type :
          (b : Bool)
          → text_eq q.type_url kind.url ≡ b
          → Settled st
          → Settled (after_run (run_fails (lookup q.type_url m) st.server))
      by_type true h p = its_own (run_fails (lookup q.type_url m) st.server) refl h
      by_type false h (inl waits) = inl (
          IsAwaited-without kind.url before after q (different q.type_url kind.url h)
            (subst (IsAwaited kind.url) e waits))
      by_type false h (inr (inl noted_so)) = inr (inl (rw h noted_so))
      by_type false h (inr (inr synced)) = inr (
          inr
            (on_request-Synced kind st.store q st.server (different q.type_url kind.url h) synced))

  -- In every state that the program can reach, a request for the kind waits, or its last run had an
  -- error, or it is in sync.
  pub Reach-Settled : {st : State S} → Reach cluster lib cfg ns lister c st → Settled st
  Reach-Settled (started order store pending s each well) =
      inr (inr (reconcile_all-Synced kind order store s each well))
  Reach-Settled (later r move) = Move-Settled move (Reach-Settled r)
