-- ===== src/Source/Resolved.antt =====
-- The loop of `Source::to_locked_app` of containerd-shim-spin/src/source.rs over the components.
use mathlib.Core.Path.{subst}
use containerd_shim_spin.Prelude.{
  ℕ, zero, suc, ◌≡◌, sym, ap, ◌∙◌, Option, none, some, List, [], ◌∷◌, arith,
}
use containerd_shim_spin.App.{Component, LockedApp}
use containerd_shim_spin.Exec.{
  Call, Result, ok, World, Exec, returned, ◌>>=◌, >>=-returned, lift, lift-returned,
  with_context-returned, pure, at_await, await, call,
}
use containerd_shim_spin.Host.{Host, Cache}
use containerd_shim_spin.Source.{resolve_component, resolve_components}

at_await-call :
    {A : Type 0} (signal : Option ℕ) (c : Call) (answer : World → Result A) (w : World) {a : A}
    → (at_await signal (call c answer) w).0 ≡ returned a
    → (w' : World) × (answer w' ≡ ok a)
unfolding call lift
at_await-call none c answer w h = (_, lift-returned (answer _) w h)
at_await-call (some zero) c answer w h = cc
at_await-call (some (suc n)) c answer w h = (_, lift-returned (answer _) w h)

await-call :
    {A : Type 0} (c : Call) (answer : World → Result A) (w : World) {a : A}
    → (await (call c answer) w).0 ≡ returned a
    → (w' : World) × (answer w' ≡ ok a)
unfolding await
await-call c answer w h = at_await-call w.signal c answer w h

module _ (H : Host) (cache : Cache) where
  -- What the host answers for a component, in some state of the process.
  abbrev pub IsAnswerFor : Component → Component → Type 0
  IsAnswerFor component resolved =
      (w : World) × (H.resolve_component_content_refs w cache component ≡ ok resolved)

  -- One answer for each component, in their order.
  abbrev pub ResolvedAll : List Component → List Component → Type 0
  ResolvedAll [] [] = Unit
  ResolvedAll (c ∷ cs) (r ∷ rs) = IsAnswerFor c r × ResolvedAll cs rs
  ResolvedAll [] (_ ∷ _) = ⊥
  ResolvedAll (_ ∷ _) [] = ⊥

  -- The app that was decoded, with each of its components replaced by what the host resolves it to.
  pub record IsResolved (decoded app : LockedApp) : Type 0 where
    pub triggers : app.triggers ≡ decoded.triggers
    pub variables : app.variables ≡ decoded.variables
    pub components : ResolvedAll decoded.components app.components

  resolve_component-returned :
      (component : Component) (w : World) {resolved : Component}
      → (resolve_component H cache component w).0 ≡ returned resolved
      → IsAnswerFor component resolved
  unfolding resolve_component
  resolve_component-returned component w h = await-call _ _ w (with_context-returned _ _ w h)

  resolve_components-ResolvedAll :
      (components : List Component) (w : World) {resolved : List Component}
      → (resolve_components H cache components w).0 ≡ returned resolved
      → ResolvedAll components resolved
  unfolding resolve_components pure
  resolve_components-ResolvedAll [] w {resolved = resolved} h =
      let e : [] ≡ resolved = cc in subst (ResolvedAll []) e tt
  resolve_components-ResolvedAll (component ∷ components) w {resolved = resolved} h =
      let (first, head, whole) =
        >>=-returned (resolve_component H cache component)
          (λ first. resolve_components H cache components >>= λ rest. pure (first ∷ rest)) w h in
      let (rest, tail, whole') =
        >>=-returned (resolve_components H cache components) (λ rest. pure (first ∷ rest)) _
          (sym (ap (λ r. r.0) whole) ∙ h) in
      let e : first ∷ rest ≡ resolved = ground (arith, h, whole, whole') in
      subst (ResolvedAll (component ∷ components)) e (
        resolve_component-returned component w head,
        resolve_components-ResolvedAll components _ tail,
      )

  abbrev pub resolve_all : LockedApp → Exec LockedApp
  resolve_all decoded = do
    components ← resolve_components H cache decoded.components
    pure (record decoded { components = components })

  pub resolve_all-IsResolved :
      (decoded app : LockedApp) (w : World)
      → (resolve_all decoded w).0 ≡ returned app
      → IsResolved decoded app
  unfolding pure
  resolve_all-IsResolved decoded app w h =
      let (components, all, whole) = >>=-returned _ _ w h in
      let same : returned (record decoded { components = components }) ≡ returned app =
        sym (ap (λ r. r.0) whole) ∙ h in
      let e : components ≡ app.components = ground arith in
      record {
        triggers = ground arith;
        variables = ground arith;
        components =
            subst (ResolvedAll decoded.components) e
              (resolve_components-ResolvedAll decoded.components w all);
      }
