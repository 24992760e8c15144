-- ===== src/Scheduler/Setup/Laws.antt =====
-- What Schedule leaves behind.
use ocular.Prelude.{
  String, Bool, true, false, Option, none, some, ◌≡◌, refl, ◌∙◌, arith, ◌=ˢ◌, if◌then◌else◌, eq_iff,
  Bool-cases, Option-cases, ◌⊎◌, inl, inr, sym,
}
use ocular.Kube.Errors.{Error, Result, ok, err}
use ocular.Api.Search.{PipelineTemplate}
use ocular.Scheduler.Setup.{
  SetupOs, with_permissions, create_fifo, pipeline_fifo_path, search_fifo_path, after_search_fifo,
  after_pipeline_fifo, with_template, with_file, with_clientset, schedule,
}

-- Whether a path is there, and what the calls do to it: mkfifo fails for a path that is there, and
-- what fails changes nothing.
pub record FifoLaws {S : Type 0} (os : SetupOs S) (there : String → S → Bool) : Type 0 where
  pub made :
      (p q : String) (s : S)
      → (os.mkfifo p s).1 ≡ none
      → (there p s ≡ false) × (there q (os.mkfifo p s).0 ≡ (if p =ˢ q then true else there q s))
  pub not_made :
      (p q : String) (s : S) (e : Error)
      → (os.mkfifo p s).1 ≡ some e
      → there q (os.mkfifo p s).0 ≡ there q s
  pub permitted : (p q : String) (s : S) → there q (os.chmod p s) ≡ there q s
  pub removed :
      (p q : String) (s : S)
      → (os.remove p s).1 ≡ none
      → there q (os.remove p s).0 ≡ (if p =ˢ q then false else there q s)
  pub not_removed :
      (p q : String) (s : S) (e : Error)
      → (os.remove p s).1 ≡ some e
      → there q (os.remove p s).0 ≡ there q s

abbrev pub failed : {A : Type 0} → Result A → Bool
failed (ok a) = false
failed (err e) = true

module _ {S : Type 0} (os : SetupOs S) (there : String → S → Bool) (laws : FifoLaws os there) where
  -- what a FIFO's creation does to the paths
  record Created (p : String) (s : S) (r : S × Option Error) : Type 0 where
    success :
        r.1 ≡ none
        → (there p s ≡ false) × ((q : String) → there q r.0 ≡ (if p =ˢ q then true else there q s))
    failure : (e : Error) → r.1 ≡ some e → (q : String) → there q r.0 ≡ there q s

  with_permissions-Created :
      (p : String) (s : S) (r : S × Option Error)
      → Created p s r
      → Created p s (with_permissions os p r)
  with_permissions-Created p s (t, none) c = record {
    success = λ h. ((c.success refl).0, λ q. laws.permitted p q t ∙ (c.success refl).1 q);
    failure = λ e h. cc h;
  }
  with_permissions-Created p s (t, some x) c = record {
    success = λ h. cc h;
    failure = λ e h q. c.failure x refl q;
  }

  create_fifo-Created : (p : String) (s : S) → Created p s (create_fifo os p s)
  unfolding create_fifo
  create_fifo-Created p s = with_permissions-Created p s (os.mkfifo p s) (record {
    success = λ h. ((laws.made p p s h).0, λ q. (laws.made p q s h).1);
    failure = λ e h q. laws.not_made p q s e h;
  })

  -- the path is that of the pipe for pipelines, and the last call was one to remove it, which failed
  pub record LeftBehind (q : String) (final : S) : Type 0 where
    pub is_pipeline_fifo : q ≡ pipeline_fifo_path os
    pub before : S
    pub error : Error
    pub fails : (os.remove (pipeline_fifo_path os) before).1 ≡ some error
    pub last : final ≡ (os.remove (pipeline_fifo_path os) before).0

  -- the path is there exactly if it was there, or its removal failed
  abbrev pub ThereAsBefore : String → S → S → Type 0
  ThereAsBefore q s final = (there q final ≡ there q s) ⊎ LeftBehind q final

  after_search_fifo-clean :
      (template : PipelineTemplate) (s t : S) (q : String) (r : S × Option Error)
      → Created (search_fifo_path os) t r
      → there (pipeline_fifo_path os) s ≡ false
      → there q t ≡ (if pipeline_fifo_path os =ˢ q then true else there q s)
      → failed (after_search_fifo os template r).1 ≡ true
      → ThereAsBefore q s (after_search_fifo os template r).0
  after_search_fifo-clean template s t q (u, none) c absent made h = cc h
  after_search_fifo-clean template s t q (u, some e) c absent made h =
      let p : String = pipeline_fifo_path os in
      elim (Option-cases (os.remove p u).1) [
        | inl gone ↦ elim (Bool-cases (p =ˢ q)) [
          | inl same ↦ inl (ground (arith, laws.removed p q u gone, eq_iff p q))
          | inr apart ↦ inl (ground (arith, laws.removed p q u gone, c.failure e refl q))
        ]
        | inr (x, stays) ↦ elim (Bool-cases (p =ˢ q)) [
          | inl same ↦ inr (record {
            is_pipeline_fifo = sym ((eq_iff p q).0 same);
            before = u;
            error = x;
            fails = stays;
            last = refl;
          })
          | inr apart ↦ inl (ground (arith, laws.not_removed p q u x stays, c.failure e refl q))
        ]
      ]

  after_pipeline_fifo-clean :
      (template : PipelineTemplate) (s : S) (q : String) (r : S × Option Error)
      → Created (pipeline_fifo_path os) s r
      → failed (after_pipeline_fifo os template r).1 ≡ true
      → ThereAsBefore q s (after_pipeline_fifo os template r).0
  after_pipeline_fifo-clean template s q (t, none) c h =
      let (absent, made) = c.success refl in
      after_search_fifo-clean template s t q (create_fifo os (search_fifo_path os) t)
        (create_fifo-Created (search_fifo_path os) t) absent (made q) h
  after_pipeline_fifo-clean template s q (t, some e) c h = inl (c.failure e refl q)

  with_template-clean :
      (template : Result PipelineTemplate) (s : S) (q : String)
      → failed (with_template os template s).1 ≡ true
      → ThereAsBefore q s (with_template os template s).0
  with_template-clean (err e) s q h = inl refl
  with_template-clean (ok template) s q h =
      after_pipeline_fifo-clean template s q (create_fifo os (pipeline_fifo_path os) s)
        (create_fifo-Created (pipeline_fifo_path os) s) h

  with_file-clean :
      (e : Option Error) (s : S) (q : String)
      → failed (with_file os e s).1 ≡ true
      → ThereAsBefore q s (with_file os e s).0
  with_file-clean none s q h = with_template-clean _ s q h
  with_file-clean (some e) s q h = inl refl

  with_clientset-clean :
      (c : Result (Unit {0})) (s : S) (q : String)
      → failed (with_clientset os c s).1 ≡ true
      → ThereAsBefore q s (with_clientset os c s).0
  with_clientset-clean (err e) s q h = inl refl
  with_clientset-clean (ok u) s q h = with_file-clean _ s q h

  -- If Schedule returns an error, then every path is there exactly if it was there before, except
  -- that the pipe for pipelines is left behind if Schedule's last call, which is to remove it,
  -- fails; provided that mkfifo fails for a path that is there and makes its path alone, that
  -- os.Remove without an error removes its path alone, that either changes no path if it fails, and
  -- that chmod changes none.
  pub schedule-clean :
      (s : S) (q : String) → failed (schedule os s).1 ≡ true → ThereAsBefore q s (schedule os s).0
  unfolding schedule
  schedule-clean s q h = with_clientset-clean os.clientset s q h
