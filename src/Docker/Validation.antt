-- ===== src/Docker/Validation.antt =====
-- How the validation of src/docker.cc ends.
use metadata_agent.Prelude.{
  text_ord, ℕ, suc, ◌+◌, ◌-◌, ◌≤◌, ◌<◌, pos, Text, true, false, Option, none, some, ◌≡◌, refl, ap,
  subst, ◌⊎◌, inl, inr, arith, Bool-cases, leb, sym, ◌∙◌, codes, ◌++◌,
}
use native.Mathlib.Decide.{dec_lt}
use metadata_agent.Exceptions.{Result, ok, raise, validation_error, json_exception, JsonError}
use metadata_agent.Json.{Value}
use metadata_agent.Json.Throws.{ThrowsJson}
use metadata_agent.Retry.{validation_of, retriable, Ending, retry-IsRight}
use metadata_agent.Environment.{Reply, unreachable, replied}
use metadata_agent.Docker.{
  DockerConfig, DockerReader, validate_docker, validation_work, docker_result, endpoint,
  endpoint_path, filter_suffix,
}

-- A reply that is worth another request: there is none, or it has the status of an error other than 400 to
-- 403.
abbrev pub IsWorthRetry : Reply → Type 0
IsWorthRetry unreachable = Unit {0}
IsWorthRetry (replied status body) = (300 ≤ status) × ((status < 400) ⊎ (403 < status))

not_retriable : {A : Type 0} (r : Result A) → ThrowsJson r → retriable r ≡ false
not_retriable (ok a) h = refl
not_retriable (raise e) (x, json) = rw json refl

module _ {Num : Type 0} (docker_config : DockerConfig) (docker : ℕ → Text → Reply)
    (parse : Text → Result (Option (Value Num))) where
  -- How the validation answers the last reply: it passes on a text that could be parsed, fails with a
  -- validation error if there is no reply or its status is an error, and lets the parser's exception escape.
  pub data Answered : Reply → Result (Unit {0}) → Type 0 where
    read :
        {status : ℕ} {body : Text} (v : Option (Value Num))
        → status < 300
        → parse body ≡ ok v
        → Answered (replied status body) (ok tt)
    lost : Answered unreachable (raise validation_error)
    refused :
        {status : ℕ} {body : Text}
        → 300 ≤ status
        → Answered (replied status body) (raise validation_error)
    unreadable :
        {status : ℕ} {body : Text} (x : JsonError)
        → status < 300
        → parse body ≡ raise (json_exception x)
        → Answered (replied status body) (raise (json_exception x))

  -- The reply to a request of the validation, for a list of at most one container.
  abbrev pub validation_reply : DockerReader → ℕ → Reply
  validation_reply d call = docker (d.requests + call) (
      docker_config.endpoint_host
      ++ codes "v"
      ++ docker_config.api_version
      ++ (endpoint_path
          ++ codes "/json?all=true&limit=1"
          ++ filter_suffix docker_config docker parse))

  -- A validation with so many requests and this outcome.
  pub record IsValidation (d : DockerReader) (calls : ℕ) (out : Result (Unit {0})) : Type 0 where
    pub some_call : 0 < calls
    pub few_calls : calls ≤ 10
    pub failures : (i : ℕ) → suc i < calls → IsWorthRetry (validation_reply d i)
    pub gave_up : (calls ≡ 10) ⊎ ¬ IsWorthRetry (validation_reply d (calls - 1))
    pub answered : Answered (validation_reply d (calls - 1)) out

  retriable-IsWorthRetry :
      ((text : Text) → ThrowsJson (parse text))
      → (reply : Reply) → retriable (docker_result docker_config docker parse reply) ≡ true
      → IsWorthRetry reply
  unfolding docker_result
  retriable-IsWorthRetry json unreachable h = tt
  retriable-IsWorthRetry json (replied status body) h = elim (Bool-cases (leb 300 status)) [
    | inl bad ↦ (
      ground arith,
      elim (dec_lt status 400) [ yes below ↦ inl below | no above ↦ inr (ground arith) ],
    )
    | inr fine ↦ ground (arith, not_retriable (parse body) (json body))
  ]

  IsWorthRetry-retriable :
      (reply : Reply)
      → retriable (docker_result docker_config docker parse reply) ≡ false
      → ¬ IsWorthRetry reply
  unfolding docker_result
  IsWorthRetry-retriable unreachable h worth = cc
  IsWorthRetry-retriable (replied status body) h (bad, inl below) = ground arith
  IsWorthRetry-retriable (replied status body) h (bad, inr above) = ground arith

  parsed-Answered :
      (status : ℕ) (body : Text) (r : Result (Option (Value Num)))
      → status < 300
      → parse body ≡ r
      → ThrowsJson r
      → Answered (replied status body) (validation_of r)
  parsed-Answered status body (ok v) low e json = read v low e
  parsed-Answered status body (raise e) low q (x, json) =
      subst (λ e. Answered (replied status body) (validation_of {A = Option (Value Num)} (raise e)))
        (sym json) (unreadable x low (q ∙ ap raise json))

  validation_of-error :
      (status : ℕ) (body : Text)
      → 300 ≤ status
      → validation_of (docker_result docker_config docker parse (replied status body))
        ≡ raise validation_error
  unfolding docker_result
  validation_of-error status body bad = ground arith

  docker_result-Answered :
      ((text : Text) → ThrowsJson (parse text))
      → (reply : Reply)
      → Answered reply (validation_of (docker_result docker_config docker parse reply))
  unfolding docker_result
  docker_result-Answered json unreachable = lost
  docker_result-Answered json (replied status body) = elim (dec_lt status 300) [
    | yes low ↦
        let e : docker_result docker_config docker parse (replied status body) ≡ parse body =
          ground arith in
        subst (λ r. Answered (replied status body) (validation_of r)) (sym e)
          (parsed-Answered status body (parse body) low refl (json body))
    | no high ↦
        subst (Answered (replied status body)) (sym (validation_of-error status body (omega arith)))
          (refused (omega arith))
  ]

  -- With a parser that throws JSON exceptions alone, the validation ends after at least one and at most ten
  -- requests to the Docker daemon for its list of containers. Before the last one each was left without a
  -- reply or had a reply with the status of an error other than 400 to 403, and there are ten if the last
  -- one's was such too. It passes if the text of the last reply could be parsed, fails with a
  -- validation error if there was none or it had the status of an error, and throws the parser's exception if
  -- it could not be parsed.
  pub validate_docker-IsValidation :
      ((text : Text) → ThrowsJson (parse text))
      → (d : DockerReader)
      → (calls : ℕ) × (out : Result (Unit {0})) × (validate_docker docker_config docker parse d
          ≡ some (out, record d { requests = d.requests + calls }))
        × IsValidation d calls out
  unfolding validate_docker validation_work endpoint
  validate_docker-IsValidation json d =
      let (e, q, right) = retry-IsRight (validation_work docker_config docker parse d) (pos 10) in
      (
        e.calls,
        validation_of e.result,
        ap
            (λ (o : Option (Ending (Option (Value Num)))).
              elim o as (λ x. Option (Result (Unit {0}) × DockerReader)) [
                | none ↦ none
                | some end ↦
                    some (validation_of end.result, record d { requests = d.requests + end.calls })
              ])
            q,
        record {
          some_call = right.some_call;
          few_calls = right.few_calls;
          failures = λ i h. retriable-IsWorthRetry json (validation_reply d i) (right.failures i h);
          gave_up = elim right.gave_up [
            | inl all ↦ inl all
            | inr last ↦ inr (
                IsWorthRetry-retriable (validation_reply d (e.calls - 1))
                  (ap retriable (sym right.last_result) ∙ last))
          ];
          answered =
              subst (λ r. Answered (validation_reply d (e.calls - 1)) (validation_of r))
                (sym right.last_result)
                (docker_result-Answered json (validation_reply d (e.calls - 1)));
        },
      )
