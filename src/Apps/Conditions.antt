-- ===== src/Apps/Conditions.antt =====
-- When the status of an app is written (internal/controller/peruserapp_controller.go).
use per_user_container_opera.Common.{
  ◌≡◌, refl, ap, Bool, true, ◌&&◌, List, [], ◌∷◌, map, ℤ, suc, length, ok,
}
use per_user_container_opera.Api.Workspace.{Condition}
use per_user_container_opera.Api.App.{PerUserApp}
use per_user_container_opera.Cluster.{Client, World}
use per_user_container_opera.Reconciler.Storage.{Library}
use per_user_container_opera.Apps.{
  Setup, all_found, same_condition, equal_conditions, patch_app_status_if_changed,
}

-- A condition as it is observed at another generation of the spec.
abbrev pub observed_at : ℤ → Condition → Condition
observed_at g k = record k { observed_generation = g }

length-observed : (g : ℤ) (a : List Condition) → length (map (observed_at g) a) ≡ length a
length-observed g [] = refl
length-observed g (k ∷ a) = ap suc (length-observed g a)

all_found-observed :
    (lib : Library) (g : ℤ) (a b : List Condition)
    → all_found lib (map (observed_at g) a) b ≡ all_found lib a b
unfolding all_found
all_found-observed lib g [] b = refl
all_found-observed lib g (k ∷ a) b =
    ap (λ (t : Bool). same_condition k (lib.find_status_condition b k.type) && t)
      (all_found-observed lib g a b)

-- If the conditions of an app differ from those that were read in nothing but the generation of the
-- spec that they were observed at, the status is not written, whatever that generation is: a
-- condition keeps the generation of its last change of status, reason or message.
patch_app_status-observed :
    (c : Client) (lib : Library) (setup : Setup) (app : PerUserApp) (g : ℤ) (w : World c.Server)
    → equal_conditions lib app.conditions app.conditions ≡ true
    → patch_app_status_if_changed c lib setup
        (record app { conditions = map (observed_at g) app.conditions })
        app
        w
      ≡ (ok tt, w)
unfolding patch_app_status_if_changed equal_conditions
patch_app_status-observed c lib setup app g w e =
    rw (length-observed g app.conditions, all_found-observed lib g app.conditions app.conditions, e)
      refl
