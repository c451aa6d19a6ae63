-- ===== src/Startup/Controller.antt =====
-- cmd/controller.go, parseControllerFlags: what the controller reads from its arguments and from its
-- environment, whose values are parameters.
use per_user_container_opera.Common.{
  ◌≡◌, ◌≢◌, refl, Bool, true, false, not, ◌||◌, Option, none, some, List, [], ◌∷◌, ◌++◌, Text,
  codes, text_eq, ℤ, pos, if◌then◌else◌, All, map, keep, All-keep, if_cases,
}
use per_user_container_opera.Identity.Extract.{is_blank}
use per_user_container_opera.Rendering.Validate.{is_nil}
use per_user_container_opera.Router.Headers.{split_commas, trim_left, trim_right}
use per_user_container_opera.Startup.Flags.{and_then, parse_all}

pub record ControllerConfig : Type 0 where
  pub watch_namespaces : List Text
  pub pod_cidr : Text
  pub node_cidr : Text
  pub metrics_addr : Text
  pub router_image : Text
  pub pod_name : Text
  pub pod_namespace : Text

-- The flags of the controller.
pub record ControllerFlags : Type 0 where
  pub watch_namespaces : Text
  pub pod_cidr : Text
  pub node_cidr : Text
  pub metrics_addr : Text

unfoldable pub set_controller_flag : Text → Text → ControllerFlags → Option ControllerFlags
set_controller_flag n v fl =
    if text_eq n (codes "watch-namespaces")
    then some (record fl { watch_namespaces = v })
    else if text_eq n (codes "pod-cidr")
    then some (record fl { pod_cidr = v })
    else if text_eq n (codes "node-cidr")
    then some (record fl { node_cidr = v })
    else if text_eq n (codes "metrics-addr")
    then some (record fl { metrics_addr = v })
    else none

-- The namespaces that a text separates by commas.
unfoldable pub split_namespaces : Text → List Text
unfolding split_commas trim_left trim_right
split_namespaces s =
    let (part, rest) = split_commas s in
    keep (λ ns. not (is_nil ns)) (map (λ ns. trim_right (trim_left ns)) (part ∷ rest))

module _ (print_int : ℤ → Text) (related_image_router pod_name pod_namespace : Text) where
  abbrev pub default_controller_flags : ControllerFlags
  default_controller_flags = record {
    watch_namespaces = [];
    pod_cidr = [];
    node_cidr = [];
    metrics_addr = codes ":" ++ print_int (pos 9090);
  }

  abbrev pub with_namespaces : ControllerFlags → List Text → Option ControllerConfig
  with_namespaces fl namespaces =
      if is_nil namespaces
      then none
      else some (record {
        watch_namespaces = namespaces;
        pod_cidr = fl.pod_cidr;
        node_cidr = fl.node_cidr;
        metrics_addr = fl.metrics_addr;
        router_image = related_image_router;
        pod_name = pod_name;
        pod_namespace = pod_namespace;
      })

  unfoldable pub configure_controller : ControllerFlags → Option ControllerConfig
  unfolding split_namespaces is_blank
  configure_controller fl =
      if is_blank fl.watch_namespaces
      then none
      else if is_nil fl.pod_cidr || is_nil fl.node_cidr
      then none
      else if is_nil related_image_router
      then none
      else if is_nil pod_name || is_nil pod_namespace
      then none
      else with_namespaces fl (split_namespaces fl.watch_namespaces)

  unfoldable pub parse_controller_flags : List Text → Option ControllerConfig
  unfolding parse_all set_controller_flag configure_controller
  parse_controller_flags args =
      and_then (parse_all set_controller_flag none args default_controller_flags)
        configure_controller

-- What a configuration of the controller must have.
pub record IsFilled (cfg : ControllerConfig) : Type 0 where
  pub some_namespace : cfg.watch_namespaces ≢ []
  pub namespaces : All (λ (ns : Text). ns ≢ []) cfg.watch_namespaces
  pub pods : cfg.pod_cidr ≢ []
  pub nodes : cfg.node_cidr ≢ []
  pub image : cfg.router_image ≢ []
  pub name : cfg.pod_name ≢ []
  pub namespace : cfg.pod_namespace ≢ []

not_nil : {A : Type 0} (l : List A) → is_nil l ≡ false → l ≢ []
not_nil [] e = absurd (cc e)
not_nil (x ∷ l) e = λ h. absurd (cc h)

is_kept : (l : Text) → not (is_nil l) ≡ true → l ≢ []
is_kept [] e = absurd (cc e)
is_kept (x ∷ l) e = λ h. absurd (cc h)

neither : (a b : Bool) → a || b ≡ false → (a ≡ false) × (b ≡ false)
neither false b e = (refl, e)
neither true b e = absurd (cc e)

namespaces_filled : (s : Text) → All (λ (ns : Text). ns ≢ []) (split_namespaces s)
unfolding split_namespaces
namespaces_filled s =
    let (part, rest) = split_commas s in
    All-keep {A = Text} (λ (ns : Text). ns ≢ []) (λ (ns : Text). not (is_nil ns))
      (map (λ (ns : Text). trim_right (trim_left ns)) (part ∷ rest)) is_kept

module _ (print_int : ℤ → Text) (related_image_router pod_name pod_namespace : Text) where
  abbrev Filled : Option ControllerConfig → Type 0
  Filled none = Unit
  Filled (some cfg) = IsFilled cfg

  configure_controller-IsFilled :
      (fl : ControllerFlags)
      → Filled (configure_controller print_int related_image_router pod_name pod_namespace fl)
  unfolding configure_controller
  configure_controller-IsFilled fl =
      if_cases Filled (is_blank fl.watch_namespaces) none _ (λ _. tt)
        (λ a.
          if_cases Filled (is_nil fl.pod_cidr || is_nil fl.node_cidr) none _ (λ _. tt)
            (λ b.
              if_cases Filled (is_nil related_image_router) none _ (λ _. tt)
                (λ i.
                  if_cases Filled (is_nil pod_name || is_nil pod_namespace) none _ (λ _. tt)
                    (λ d.
                      if_cases Filled (is_nil (split_namespaces fl.watch_namespaces)) none _
                        (λ _. tt)
                        (λ e. record {
                          some_namespace = not_nil (split_namespaces fl.watch_namespaces) e;
                          namespaces = namespaces_filled fl.watch_namespaces;
                          pods = not_nil fl.pod_cidr (neither _ _ b).0;
                          nodes = not_nil fl.node_cidr (neither _ _ b).1;
                          image = not_nil related_image_router i;
                          name = not_nil pod_name (neither _ _ d).0;
                          namespace = not_nil pod_namespace (neither _ _ d).1;
                        })))))

  -- Whatever the arguments, a controller that starts has a namespace to serve, and every value that
  -- it requires of its arguments and its environment is there.
  parse_controller_flags-IsFilled :
      (args : List Text)
      → Filled (parse_controller_flags print_int related_image_router pod_name pod_namespace args)
  unfolding parse_controller_flags
  parse_controller_flags-IsFilled args = by_flags (
      parse_all set_controller_flag none args
        (default_controller_flags print_int related_image_router pod_name pod_namespace))
    where
      by_flags :
          (o : Option ControllerFlags)
          → Filled (
              and_then o
                (configure_controller print_int related_image_router pod_name pod_namespace))
      by_flags none = tt
      by_flags (some fl) = configure_controller-IsFilled fl
