-- ===== src/State/Notify.antt =====
-- The hooks run from the last that was registered to the first, and stop at the first error.
use mathlib.Core.List.{reverse-append}
use nimo_os_gateway.Base.{
  ℕ, zero, suc, ◌≤◌, ◌<◌, ◌≡◌, refl, sym, ap, ◌∙◌, Option, none, some, List, [], ◌∷◌, ◌++◌, reverse,
  fun_ext, Text, Error, Act, done, ◌>>◌, and_then, length, get_elem?, take, arith,
}
use nimo_os_gateway.State.{
  State, ConfigHook, notify_down, notify_port, notify_config, add_config_hook,
}

take_step :
    {H : Type 0} (hooks : List H) (i : ℕ)
    → i < length hooks
    → (h : H) × (get_elem? hooks i ≡ some h) × (take (suc i) hooks ≡ take i hooks ++ h ∷ [])
take_step [] i lt = absurd (omega arith)
take_step (h ∷ hs) zero lt = (h, refl, refl)
take_step (x ∷ hs) (suc i) lt =
    let (h, found, split) = take_step hs i (omega arith) in (h, found, ap (◌∷◌ x) split)

take_all : {H : Type 0} (hooks : List H) → take (length hooks) hooks ≡ hooks
take_all [] = refl
take_all (h ∷ hs) = ap (◌∷◌ h) (take_all hs)

module _ {W : Type 0} where
  -- Run the hooks in the order of the list, up to the first error.
  unfoldable pub run_all : {H : Type 0} → (H → Act W) → List H → Act W
  run_all call [] = done
  run_all call (h ∷ hs) = call h >> run_all call hs

  >>-assoc : (m k l : Act W) → ((m >> k) >> l) ≡ (m >> (k >> l))
  >>-assoc m k l = fun_ext λ w. and_then_assoc (m w)
    where
      and_then_assoc : (r : Option Error × W) → and_then (and_then r k) l ≡ and_then r (k >> l)
      and_then_assoc (none, v) = refl
      and_then_assoc (some e, v) = refl

  run_all-append :
      {H : Type 0} (call : H → Act W) (xs ys : List H)
      → run_all call (xs ++ ys) ≡ (run_all call xs >> run_all call ys)
  unfolding run_all
  run_all-append call [] ys = refl
  run_all-append call (x ∷ xs) ys =
      ap (λ k. call x >> k) (run_all-append call xs ys) ∙ sym (>>-assoc (call x) _ _)

  notify_down-run_all :
      {H : Type 0} (call : H → Act W) (hooks : List H) (i : ℕ)
      → i ≤ length hooks
      → notify_down call i hooks ≡ run_all call (reverse (take i hooks))
  unfolding notify_down run_all
  notify_down-run_all call hooks zero le = refl
  notify_down-run_all call hooks (suc i) le =
      let (h, found, split) = take_step hooks i le in
      rw (found, split, reverse-append (take i hooks) (h ∷ []))
        (ap (λ k. call h >> k) (notify_down-run_all call hooks i (omega arith)))

  -- `notifyOnGatewayConfigChange` calls the hooks in reverse order and stops at the first error.
  pub notify_config-run_all :
      (c : State W)
      → notify_config c ≡ run_all (λ h. h c.settings) (reverse c.on_gateway_config_change)
  unfolding notify_config
  notify_config-run_all c =
      notify_down-run_all (λ h. h c.settings) c.on_gateway_config_change _ (omega arith)
      ∙ ap (λ hs. run_all (λ h. h c.settings) (reverse hs)) (take_all c.on_gateway_config_change)

  pub notify_port-run_all :
      (port : Text) (c : State W)
      → notify_port port c ≡ run_all (λ h. h port c.settings) (reverse c.on_gateway_port_change)
  unfolding notify_port
  notify_port-run_all port c =
      notify_down-run_all (λ h. h port c.settings) c.on_gateway_port_change _ (omega arith)
      ∙ ap (λ hs. run_all (λ h. h port c.settings) (reverse hs)) (take_all c.on_gateway_port_change)

  -- A hook registered last runs first, and keeps the others from running when it fails.
  pub notify_config-add_config_hook :
      (f : ConfigHook W) (c : State W)
      → notify_config (add_config_hook f c) ≡ (f c.settings >> notify_config c)
  unfolding add_config_hook
  notify_config-add_config_hook f c =
      rw
        (
          notify_config-run_all (add_config_hook f c),
          notify_config-run_all c,
          reverse-append c.on_gateway_config_change (f ∷ []),
        )
        (unfold run_all in refl)
