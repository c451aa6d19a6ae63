-- ===== src/Apps/Writes.antt =====
-- What the reconcile of an app may write (internal/controller/peruserapp_controller.go).
use per_user_container_opera.Common.{
  ◌≡◌, refl, sym, ◌∙◌, Option, none, some, List, [], ◌∷◌, Text, if◌then◌else◌, if_cases, Result, ok,
  err, ◌⊎◌, inl, inr, is_not_found, All,
}
use per_user_container_opera.Api.Workspace.{Key}
use per_user_container_opera.Api.App.{PerUserApp}
use per_user_container_opera.Api.Objects.{ReclaimPolicy, retain, delete, recycle}
use per_user_container_opera.Cluster.{Client, World, requests}
use per_user_container_opera.Cluster.Keeps.{Keeps}
use per_user_container_opera.Reconciler.Storage.{Library}
use per_user_container_opera.Rendering.Validate.{ConfigError, Warning, validate_app, is_nil}
use per_user_container_opera.Apps.Ensured.{
  IsServed, IsAppWrite, report-IsAppWrite, ensure_app-IsAppWrite,
}
use per_user_container_opera.Apps.{
  Setup, AppError, image_unresolved, class_error, set_app_condition, resolve_image,
  invalid_condition, valid_condition, validate_storage_class, after_class, after_validation,
  check_config, ensure_app, by_config, by_answer, reconcile_per_user_app,
}

module _ (c : Client) (lib : Library) (setup : Setup) where
  -- What a check of an app answers for.
  IsChecked : PerUserApp → (AppError ⊎ List Warning) × World c.Server → Type 0
  IsChecked app (inl e, w) = All (λ q. IsAppWrite c lib setup q) (requests w.log)
  IsChecked app (inr ws, w) =
      IsServed c lib setup app × All (λ q. IsAppWrite c lib setup q) (requests w.log)

  check_config-IsChecked :
      (app : PerUserApp) (w : World c.Server)
      → All (λ q. IsAppWrite c lib setup q) (requests w.log)
      → IsChecked app (check_config c lib setup app w)
  unfolding check_config validate_storage_class IsChecked
  check_config-IsChecked app w h = by_validation (validate_app app) refl
    where
      by_image :
          (ws : List Warning) (s : c.Server)
          → validate_app app ≡ inr ws
          → c.get_storage_class app.spec.storage.storage_class_name w.server ≡ (ok (some retain), s)
          → (t : Text) → resolve_image setup app ≡ t
          → IsChecked app (
            elim (if is_nil t then some image_unresolved else none) [
              | none ↦ inr ws
              | some e ↦ inl e
            ],
            record w { server = s },
          )
      by_image ws s v g [] e = h
      by_image ws s v g (b ∷ t) e = (
        record {
          warnings = ws;
          valid = v;
          before = w.server;
          after = s;
          retained = g;
          image = λ n. absurd (cons_nil (sym e ∙ n));
        },
        h,
      )
        where
          cons_nil : ◌≡◌ {A = Text} (b ∷ t) [] → ⊥
          cons_nil q = cc

      by_class :
          (ws : List Warning) (r : Result (Option ReclaimPolicy) × c.Server)
          → validate_app app ≡ inr ws
          → c.get_storage_class app.spec.storage.storage_class_name w.server ≡ r
          → IsChecked app
              (after_class c lib setup app ws (class_error r.0, record w { server = r.1 }))
      by_class ws (err e, s) v g = h
      by_class ws (ok none, s) v g = h
      by_class ws (ok (some retain), s) v g = by_image ws s v g (resolve_image setup app) refl
      by_class ws (ok (some delete), s) v g = h
      by_class ws (ok (some recycle), s) v g = h

      by_validation :
          (v : ConfigError ⊎ List Warning)
          → validate_app app ≡ v
          → IsChecked app (after_validation c lib setup app v w)
      by_validation (inl e) q = h
      by_validation (inr ws) q =
          by_class ws (c.get_storage_class app.spec.storage.storage_class_name w.server) q refl

  checked-Keeps :
      (app : PerUserApp) (x : (AppError ⊎ List Warning) × World c.Server)
      → IsChecked app x
      → All (λ q. IsAppWrite c lib setup q) (requests (by_config c lib setup app x).1.log)
  unfolding IsChecked set_app_condition
  checked-Keeps app (inl e, w) h =
      report-IsAppWrite c lib setup app (invalid_condition lib setup app e).conditions w h
  checked-Keeps app (inr ws, w) h = kept app h.0 ws w h.1
    where
      kept :
          (a : PerUserApp) (s : IsServed c lib setup a) (l : List Warning)
          → Keeps
              (λ q. IsAppWrite c lib setup q)
              (ensure_app c lib setup a (valid_condition lib a) l)
      kept a s l = ensure_app-IsAppWrite c lib setup a s l

  -- Whatever the server answers, a whole reconcile of an app makes only the writes of an app's
  -- reconcile.
  pub reconcile_per_user_app-IsAppWrite :
      (key : Key) (s : c.Server)
      → All
          (λ q. IsAppWrite c lib setup q)
          (requests
            (reconcile_per_user_app c lib setup key (record { server = s; log = [] })).1.log)
  unfolding reconcile_per_user_app
  reconcile_per_user_app-IsAppWrite key s = answered (c.get_app key s)
    where
      answered :
          (r : Result PerUserApp × c.Server)
          → All
              (λ q. IsAppWrite c lib setup q)
              (requests (by_answer c lib setup (r.0, record { server = r.1; log = [] })).1.log)
      answered (ok app, t) =
          checked-Keeps app (check_config c lib setup app (record { server = t; log = [] }))
            (check_config-IsChecked app (record { server = t; log = [] }) tt)
      answered (err e, t) =
          if_cases
            (λ (m : Result (Unit {0}) × World c.Server).
              All (λ q. IsAppWrite c lib setup q) (requests m.1.log))
            (is_not_found e) (ok tt, record { server = t; log = [] })
            (err e, record { server = t; log = [] }) (λ _. tt) (λ _. tt)
