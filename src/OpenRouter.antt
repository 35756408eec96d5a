-- ===== src/OpenRouter.antt =====
-- internal/ai/openrouter/client.go: the Chat Completions client and its errors.
pub mod Classification
use mentor_ia_worker.Prelude.{
  ℕ, String, Bool, true, false, ◌||◌, none, List, [], ◌∷◌, ◌++◌, ℤ, pos, leb_ℤ, leb, ltb, ◌==◌,
  if◌then◌else◌, eq_bytes,
}
use mentor_ia_worker.Text.{Bytes, bytes, is_empty, trim_space, trim_right_byte, truncate, to_lower}
use mentor_ia_worker.Domain.Errors.{
  Error, Result, ok, err, plain, external, wrap, api_error, deadline_exceeded, canceled, errors_is,
  is_network_error,
}
use mentor_ia_worker.Postgres.Session.{
  World, Action, ◌>>=◌, ◌>>◌, pure, throw, require, of_result, labelled, attempt,
}

-- Config; the timeout is a time.Duration, in nanoseconds.
pub record Config : Type 0 where
  pub api_key : Bytes
  pub base_url : Bytes
  pub model : Bytes
  pub timeout : ℤ

-- Client, with the timeout of its HTTP client.
pub record Client : Type 0 where
  pub api_key : Bytes
  pub base_url : Bytes
  pub model : Bytes
  pub timeout : ℤ

abbrev sixty_seconds : ℤ
sixty_seconds = pos 60000000000

-- New
unfoldable pub new : Config → Result Client
new config =
    let api_key = trim_space config.api_key in
    let model = trim_space config.model in
    let base_url = trim_right_byte b'/' (trim_space config.base_url) in
    if is_empty api_key
    then err (plain "AI_PROVIDER_API_KEY nao pode estar vazia")
    else if is_empty model
    then err (plain "AI_MODEL nao pode estar vazio")
    else if is_empty base_url
    then err (plain "AI_PROVIDER_BASE_URL nao pode estar vazia")
    else ok (record {
      api_key = api_key;
      base_url = base_url;
      model = model;
      timeout = if leb_ℤ config.timeout (pos 0) then sixty_seconds else config.timeout;
    })

-- chatMessage and chatRequest
pub record ChatMessage : Type 0 where
  pub role : Bytes
  pub content : Bytes

pub record ChatRequest : Type 0 where
  pub model : Bytes
  pub messages : List ChatMessage

system_instruction : Bytes
unfolding bytes
system_instruction =
    bytes
      "Voce e o Mentor.ia, um orientador educacional para estudantes do ENEM. Siga as instrucoes do usuario para gerar somente uma orientacao de estudos pratica e acolhedora. Nunca responda com classificacoes de seguranca, moderacao ou metadados do provedor."

-- An http.Request as far as the client sets it.
pub record HttpRequest : Type 0 where
  pub url : Bytes
  pub authorization : Bytes
  pub body : Bytes

pub record HttpResponse : Type 0 where
  pub status : ℕ
  pub body : Action Bytes

-- net/http and encoding/json: building a request (which fails on a bad URL), sending it, reading
-- the whole body, and the JSON of the request and of the reply.
pub record Transport : Type 0 where
  pub marshal_request : ChatRequest → Bytes
  pub check_url : Bytes → Result (Unit {0})
  pub send : HttpRequest → Action HttpResponse
  pub unmarshal_choices : Bytes → Result (List ChatMessage)

-- isSafetyClassification
unfoldable pub is_safety_classification : Bytes → Bool
is_safety_classification content =
    let normalized = to_lower (trim_space content) in
    eq_bytes normalized (bytes "user safety: safe")
    || eq_bytes normalized (bytes "user safety: unsafe")

-- classifyTransportError
pub classify_transport_error : Error → Error
classify_transport_error e =
    if errors_is deadline_exceeded e
    then api_error 0 "timeout" true e
    else if errors_is canceled e
    then api_error 0 "request_canceled" true e
    else if is_network_error e
    then api_error 0 "network_error" true e
    else api_error 0 "request_error" true e

-- The `switch` of newAPIError.
status_code : ℕ → String × Bool
status_code status =
    if status == 400
    then ("bad_request", false)
    else if status == 401
    then ("unauthorized", false)
    else if status == 403
    then ("forbidden", false)
    else if status == 429
    then ("rate_limited", true)
    else if leb 500 status
    then ("server_error", true)
    else ("http_error", false)

-- newAPIError: `errors.New(responseBody)` is an error that wraps nothing.
pub new_api_error : ℕ → Bytes → Error
unfolding status_code
new_api_error status body =
    let (code, retry) = status_code status in
    api_error status code retry (external none false (truncate 1000 (trim_space body)))

-- The reply with a status of 2xx.
unfoldable pub read_content : List ChatMessage → Result Bytes
unfolding is_safety_classification
read_content [] = err (plain "OpenRouter nao retornou escolhas")
read_content (choice ∷ _) =
    let content = trim_space choice.content in
    if is_empty content
    then err (plain "OpenRouter retornou conteudo vazio")
    else if is_safety_classification content
    then err (
        api_error 0 "invalid_content" true
          (plain "OpenRouter retornou classificacao de seguranca em vez de um insight"))
    else ok content

unfoldable pub read_reply : Transport → ℕ → Bytes → Action Bytes
unfolding read_content new_api_error
read_reply t status body =
    if ltb status 200 || leb 300 status then throw (new_api_error status body) else (do
      choices ←
          labelled "falha ao decodificar resposta OpenRouter: "
            (of_result (t.unmarshal_choices body))
      of_result (read_content choices))

unfoldable pub request_of : Client → Transport → Bytes → HttpRequest
unfolding system_instruction
request_of c t prompt = record {
  url = c.base_url ++ bytes "/chat/completions";
  authorization = bytes "Bearer " ++ c.api_key;
  body = t.marshal_request (record {
    model = c.model;
    messages =
        record { role = bytes "system"; content = system_instruction }
        ∷ record { role = bytes "user"; content = prompt }
        ∷ [];
  });
}

unfoldable pub after_send : Transport → Result HttpResponse → Action Bytes
unfolding read_reply classify_transport_error
after_send t (err e) = throw (classify_transport_error e)
after_send t (ok response) = do
  body ← labelled "falha ao ler resposta OpenRouter: " response.body
  read_reply t response.status body

-- Complete
unfoldable pub complete : Client → Transport → Bytes → Action Bytes
unfolding request_of after_send
complete c t prompt =
    let trimmed = trim_space prompt in
    if is_empty trimmed then throw (plain "prompt nao pode estar vazio") else (do
      labelled "falha ao criar request OpenRouter: "
          (of_result (t.check_url (c.base_url ++ bytes "/chat/completions")))
      response ← attempt (t.send (request_of c t trimmed))
      after_send t response)
