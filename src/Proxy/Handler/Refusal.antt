-- ===== src/Proxy/Handler/Refusal.antt =====
-- What proxyHandler makes of a request for a model that GetModel does not give.
use vllm_chill.Prelude.{
  ℕ, Bytes, same_iff, List, [], ◌∷◌, ◌++◌, Error, ok, err, ◌≡◌, ◌≢◌, refl, ap, ◌∙◌, arith,
}
use vllm_chill.Kubernetes.Config.{Config}
use vllm_chill.Kubernetes.Models.{is_empty}
use vllm_chill.Kubernetes.Crd.{get_model}
use vllm_chill.Proxy.Scaler.{World, Scaler, request, activity, update_activity}
use vllm_chill.Proxy.Handler.{
  Request, available_models, not_found, Unmarshal, requested_model, switch_to, handle_model_switch,
  answer, switch_if_asked, handle, proxy_handler, return_available_models, status_of, list_infos,
  get_model_names, ModelInfo,
}

module _ (world : World) (config : Config) where
  open world use {api}

  module _ (unmarshal : Unmarshal) (upstream : Scaler world → ℕ) (r : Request) where
    module _ (others : Scaler world → Scaler world) (ticks : ℕ) where
      asked-missing :
          (wanted : Bytes) (s : Scaler world) (e : Error)
          → wanted ≢ []
          → wanted ≢ s.active_model
          → (get_model api wanted s.server).0 ≡ err e
          → switch_if_asked world config unmarshal upstream r others ticks wanted s
            ≡ (not_found wanted, record s { server = (get_model api wanted s.server).1 })
      unfolding is_empty handle_model_switch switch_to
      asked-missing [] s e some_name other missing = absurd (some_name refl)
      asked-missing (c ∷ cs) s e some_name other missing =
          ground (arith, same_iff (c ∷ cs) s.active_model)

      refused :
          (wanted : Bytes) (s : Scaler world) (ms : List ModelInfo)
          → (list_infos world config s).0 ≡ ok ms
          → answer world config unmarshal upstream r others ticks wanted (not_found wanted, s)
            ≡ (available_models wanted (get_model_names ms), (list_infos world config s).1)
      unfolding answer return_available_models
      refused wanted s ms h = rw h

      handle-missing :
          (s : Scaler world) (e : Error) (ms : List ModelInfo)
          → let wanted = requested_model unmarshal r in
            let t = record (update_activity world config s) {
              server = (get_model api wanted s.server).1;
            } in
            wanted ≢ []
            → wanted ≢ s.active_model
            → (get_model api wanted s.server).0 ≡ err e
            → (list_infos world config t).0 ≡ ok ms
            → handle world config unmarshal upstream r others ticks s
              ≡ (available_models wanted (get_model_names ms), (list_infos world config t).1)
      unfolding handle update_activity
      handle-missing s e ms some_name other missing listed =
          let s' = update_activity world config s in
          let wanted = requested_model unmarshal r in
          let t = record s' { server = (get_model api wanted s.server).1 } in
          ap (answer world config unmarshal upstream r others ticks wanted)
            (asked-missing wanted s' e some_name other missing)
          ∙ refused wanted t ms listed

      -- A request for a model that is not the active one and that GetModel does not give, for
      -- whatever reason, gets the 404 reply with the models' names once these can be listed. The
      -- active model and the recorded state stay, and nothing but the activity and the request is
      -- recorded.
      pub unknown_is_refused :
          (s : Scaler world) (e : Error) (ms : List ModelInfo)
          → let wanted = requested_model unmarshal r in
            wanted ≢ []
            → wanted ≢ s.active_model
            → (get_model api wanted s.server).0 ≡ err e
            → (list_infos world config (record (update_activity world config s) {
              server = (get_model api wanted s.server).1;
            })).0
              ≡ ok ms
            → let (reply, after) = proxy_handler world config unmarshal upstream r others ticks s in
              (reply ≡ available_models wanted (get_model_names ms))
              × (after.active_model ≡ s.active_model)
              × (after.events
                  ≡ (s.events ++ activity (world.now s.server) ∷ [])
                    ++ request r.method r.path 404 0 ∷ [])
      unfolding proxy_handler list_infos update_activity status_of
      unknown_is_refused s e ms some_name other missing listed =
          let step = handle-missing s e ms some_name other missing listed in
          (
            ap (λ p. p.0) step,
            ap (λ p. p.1.active_model) step,
            ap (λ p. p.1.events ++ request r.method r.path (status_of p.0) 0 ∷ []) step,
          )
