-- ===== src/Tools/AiCheck.antt =====
-- scripts/test-ai.go: one completion, to see that the AI provider answers.
use mentor_ia_worker.Prelude.{List, [], ◌∷◌, ◌++◌, pos, if◌then◌else◌}
use mentor_ia_worker.Text.{Bytes, bytes, is_empty, trim_space}
use mentor_ia_worker.Domain.Errors.{Result, ok, err, error_text}
use mentor_ia_worker.Config.{Environment}
use mentor_ia_worker.OpenRouter.{Client, Transport, new, complete}
use mentor_ia_worker.Postgres.Session.{World}

-- How the script ends: `fail`, with exit code 1, or with the model and the content on the output.
pub data Ending : Type 0 where
  fail : Bytes → Ending
  answered : Bytes → Bytes → Ending

-- strings.Join(os.Args[1:], " ")
join_words : List Bytes → Bytes
join_words [] = []
join_words (x ∷ []) = x
join_words (x ∷ y ∷ xs) = x ++ 32 ∷ join_words (y ∷ xs)

default_prompt : Bytes
default_prompt =
    bytes
      "Responda em portugues do Brasil, em uma frase curta: teste de conectividade da IA do Mentor.ia."

pub prompt_of : List Bytes → Bytes
unfolding join_words default_prompt
prompt_of arguments =
    let prompt = trim_space (join_words arguments) in
    if is_empty prompt then default_prompt else prompt

completed : Bytes → Result Bytes × World → Ending × World
completed model (ok content, w) = (answered model content, w)
completed model (err e, w) = (fail (bytes "falha ao chamar IA: " ++ error_text e), w)

with_client : Transport → Bytes → Bytes → Result Client → World → Ending × World
unfolding completed
with_client t model prompt (err e) w =
    (fail (bytes "falha ao criar client de IA: " ++ error_text e), w)
with_client t model prompt (ok client) w = completed model (complete client t prompt w)

-- main, with the environment after godotenv.Load, and os.Args[1:].
unfoldable pub run : Transport → Environment → List Bytes → World → Ending × World
unfolding with_client prompt_of
run t env arguments w =
    let api_key = trim_space (env "AI_PROVIDER_API_KEY") in
    let base_url = trim_space (env "AI_PROVIDER_BASE_URL") in
    let model = trim_space (env "AI_MODEL") in
    if is_empty api_key
    then (fail (bytes "AI_PROVIDER_API_KEY nao configurada"), w)
    else if is_empty base_url
    then (fail (bytes "AI_PROVIDER_BASE_URL nao configurada"), w)
    else if is_empty model
    then (fail (bytes "AI_MODEL nao configurado"), w)
    else with_client t model (prompt_of arguments)
        (new (record {
          api_key = api_key;
          base_url = base_url;
          model = model;
          timeout = pos 30000000000;
        }))
        w
