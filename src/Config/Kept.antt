-- ===== src/Config/Kept.antt =====
-- src/data/ConfigManager.cpp: what `load_app_config` never sets.
use lib_stereo_camera.Common.{
  ◌≡◌, refl, sym, ap, ◌∙◌, arith, String, ℤ, List, [], ◌∷◌, ◌++◌, map, Option, none, some, ◌>>=◌,
  if◌then◌else◌, both_branches, Option-cases, insert, string_discrete, inl, inr, Assoc,
}
use lib_stereo_camera.Client.{Json}
use lib_stereo_camera.Json.{JsonOps}
use lib_stereo_camera.Config.{ServerConfig, AppConfig}
use lib_stereo_camera.Config.Load.{
  Step, run_steps, in_api1, in_server, in_data2, in_admin, in_data3, in_wss, in_log, text_step,
  int_step, inside, entry_step, entry_steps, server_steps, sdk_steps, data1_steps, data2_steps,
  data3_steps, config_steps, load_parsed, load_app_config,
}

-- The queue settings and the buffer's depth are as before.
abbrev Same : AppConfig → AppConfig → Type 0
Same c c' = (c'.spsc ≡ c.spsc) × (c'.data_buffer_depth ≡ c.data_buffer_depth)

abbrev Keeps : Step → Type 0
Keeps step = (c : AppConfig) → (c' : AppConfig) → step c ≡ some c' → Same c c'

abbrev AllKeep : List Step → Type 0
AllKeep [] = Unit
AllKeep (step ∷ steps) = Keeps step × AllKeep steps

AllKeep-append : (ss ts : List Step) → AllKeep ss → AllKeep ts → AllKeep (ss ++ ts)
AllKeep-append [] ts k l = l
AllKeep-append (s ∷ ss) ts k l = (k.0, AllKeep-append ss ts k.1 l)

run_steps-Same : (steps : List Step) (c : AppConfig) → AllKeep steps → Same c (run_steps steps c).0
unfolding run_steps
run_steps-Same [] c k = (refl, refl)
run_steps-Same (step ∷ steps) c k = elim (Option-cases (step c)) [
  | inl e ↦ rw (e, run_steps) (refl, refl)
  | inr (c', e) ↦
      let first = k.0 c c' e in
      let rest = run_steps-Same steps c' k.1 in
      rw (e, run_steps) (rest.0 ∙ first.0, rest.1 ∙ first.1)
]

-- A change of one part keeps both.
abbrev KeepsChange : {A : Type 0} → ((A → A) → AppConfig → AppConfig) → Type 0
KeepsChange {A} change = (f : A → A) (c : AppConfig) → Same c (change f c)

abbrev or_else : AppConfig → Option AppConfig → AppConfig
or_else c none = c
or_else c (some c') = c'

-- A value that is read, or not, and a change by it.
after_read :
    {A B : Type 0} (change : (A → A) → AppConfig → AppConfig) (assign : B → A → A) (read : Option B)
    (c c' : AppConfig)
    → KeepsChange change
    → (read >>= (λ x. some (change (assign x) c))) ≡ some c'
    → Same c c'
after_read change assign none c c' k e = absurd (ground (arith, e))
after_read change assign (some x) c c' k e =
    let same : change (assign x) c ≡ c' = ap (or_else c) e in
    (
      ap (λ z. z.spsc) (sym same) ∙ (k (assign x) c).0,
      ap (λ z. z.data_buffer_depth) (sym same) ∙ (k (assign x) c).1,
    )

module _ {R : Type 0} (lib : JsonOps R) where
  text_step-Keeps :
      {A : Type 0} (change : (A → A) → AppConfig → AppConfig) (assign : String → A → A) (j : Json R)
      (key default : String)
      → KeepsChange change
      → Keeps (text_step lib change assign j key default)
  unfolding text_step
  text_step-Keeps change assign j key default k c c' e =
      after_read change assign (lib.value_text key default j) c c' k e

  int_step-Keeps :
      {A : Type 0} (change : (A → A) → AppConfig → AppConfig) (assign : ℤ → A → A) (j : Json R)
      (key : String) (default : ℤ)
      → KeepsChange change
      → Keeps (int_step lib change assign j key default)
  unfolding int_step
  int_step-Keeps change assign j key default k c c' e =
      after_read change assign (lib.value_int key default j) c c' k e

  inside-AllKeep :
      (key : String) (j : Json R) (steps : Json R → List Step)
      → ((s : Json R) → AllKeep (steps s))
      → AllKeep (inside lib key j steps)
  unfolding inside
  inside-AllKeep key j steps k = both_branches AllKeep (lib.contains key j) (go (lib.at key j)) tt
    where
      go : (o : Option (Json R)) → AllKeep (elim o [ none ↦ [] | some s ↦ steps s ])
      go none = tt
      go (some s) = k s

  entry_steps-AllKeep :
      {A : Type 0} (change : (A → A) → AppConfig → AppConfig)
      (assign : (Assoc String String → Assoc String String) → A → A) (key : String) (j : Json R)
      → KeepsChange change
      → AllKeep (entry_steps lib change assign key j)
  unfolding entry_steps entry_step
  entry_steps-AllKeep {A} change assign key j k =
      inside-AllKeep key j
        (λ d. if lib.is_object d then map (entry_step lib change assign) (lib.entries d) else [])
        (λ d. both_branches AllKeep (lib.is_object d) (all (lib.entries d)) tt)
    where
      one : (e : String × Json R) → Keeps (entry_step lib change assign e)
      one (key, val) c c' e =
          after_read change (λ s. assign (insert string_discrete key s)) (lib.get_text val) c c' k e

      all : (es : List (String × Json R)) → AllKeep (map (entry_step lib change assign) es)
      all [] = tt
      all (e ∷ es) = (one e, all es)

  server_steps-AllKeep :
      (change : (ServerConfig → ServerConfig) → AppConfig → AppConfig) (host : String) (port : ℤ)
      (thread_strategy : String) (worker_threads : ℤ)
      → KeepsChange change
      → (j : Json R) → AllKeep (server_steps lib change host port thread_strategy worker_threads j)
  unfolding server_steps
  server_steps-AllKeep change host port thread_strategy worker_threads k j = (
    text_step-Keeps change _ j _ _ k,
    (
      int_step-Keeps change _ j _ _ k,
      (
        text_step-Keeps change _ j _ _ k,
        (
          text_step-Keeps change _ j _ _ k,
          (text_step-Keeps change _ j _ _ k, (int_step-Keeps change _ j _ _ k, tt)),
        ),
      ),
    ),
  )

  sdk_steps-AllKeep : (cs : Json R) → AllKeep (sdk_steps lib cs)
  unfolding sdk_steps in_api1
  sdk_steps-AllKeep cs = (
    text_step-Keeps in_api1 _ cs _ _ (λ f c. (refl, refl)),
    (
      int_step-Keeps in_api1 _ cs _ _ (λ f c. (refl, refl)),
      (
        text_step-Keeps in_api1 _ cs _ _ (λ f c. (refl, refl)),
        (int_step-Keeps in_api1 _ cs _ _ (λ f c. (refl, refl)), tt),
      ),
    ),
  )

  data1_steps-AllKeep : (d : Json R) → AllKeep (data1_steps lib d)
  unfolding data1_steps in_api1
  data1_steps-AllKeep d = (
    text_step-Keeps in_api1 _ d _ _ (λ f c. (refl, refl)),
    entry_steps-AllKeep in_api1 (λ f x. record x { channels = f x.channels }) "channels" d
        (λ f c. (refl, refl)),
  )

  data2_steps-AllKeep : (d : Json R) → AllKeep (data2_steps lib d)
  unfolding data2_steps in_data2
  data2_steps-AllKeep d = (
    text_step-Keeps in_data2 _ d _ _ (λ f c. (refl, refl)),
    (
      int_step-Keeps in_data2 _ d _ _ (λ f c. (refl, refl)),
      entry_steps-AllKeep in_data2 (λ f x. record x { pub_endpoints = f x.pub_endpoints })
          "pub_endpoints" d (λ f c. (refl, refl)),
    ),
  )

  data3_steps-AllKeep : (d : Json R) → AllKeep (data3_steps lib d)
  unfolding data3_steps in_data3 in_wss
  data3_steps-AllKeep d = (
    int_step-Keeps in_data3 _ d _ _ (λ f c. (refl, refl)),
    AllKeep-append _ _
        (inside-AllKeep "wss_server" d _
          (server_steps-AllKeep in_wss _ _ _ _ (λ f c. (refl, refl))))
        (entry_steps-AllKeep in_data3 (λ f x. record x { sub_endpoints = f x.sub_endpoints })
          "sub_endpoints" d (λ f c. (refl, refl))),
  )

  config_steps-AllKeep : (j : Json R) → AllKeep (config_steps lib j)
  unfolding config_steps in_server in_admin in_log
  config_steps-AllKeep j =
      AllKeep-append _ _
        (inside-AllKeep "api1" j _ (λ a1.
          AllKeep-append _ _ (inside-AllKeep "camera_sdk" a1 _ sdk_steps-AllKeep)
            (inside-AllKeep "data" a1 _ data1_steps-AllKeep)))
        (AllKeep-append _ _
          (inside-AllKeep "api2" j _ (λ a2.
            AllKeep-append _ _
              (inside-AllKeep "server" a2 _
                (server_steps-AllKeep in_server _ _ _ _ (λ f c. (refl, refl))))
              (inside-AllKeep "data" a2 _ data2_steps-AllKeep)))
          (AllKeep-append _ _
            (inside-AllKeep "api3" j _ (λ a3.
              AllKeep-append _ _
                (inside-AllKeep "admin_server" a3 _
                  (server_steps-AllKeep in_admin _ _ _ _ (λ f c. (refl, refl))))
                (inside-AllKeep "data" a3 _ data3_steps-AllKeep)))
            (text_step-Keeps in_log _ j _ _ (λ f c. (refl, refl)), tt)))

  load_parsed-Same : (o : Option (Json R)) (c : AppConfig) → Same c (load_parsed lib o c).0
  unfolding load_parsed
  load_parsed-Same none c = (refl, refl)
  load_parsed-Same (some j) c = run_steps-Same (config_steps lib j) c (config_steps-AllKeep j)

  -- Whatever stands in config.json, and whether it can be read or not, the queue settings and the
  -- buffer's depth are after `load_app_config` what they were before.
  pub load_app_config-keeps :
      (file : Option String) (c : AppConfig)
      → let after = (load_app_config lib file c).0 in
        (after.spsc ≡ c.spsc) × (after.data_buffer_depth ≡ c.data_buffer_depth)
  unfolding load_app_config
  load_app_config-keeps none c = (refl, refl)
  load_app_config-keeps (some text) c = load_parsed-Same (lib.parse text) c
