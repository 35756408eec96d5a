-- ===== src/OpenRouter/Classification.antt =====
-- What the client returns: an insight that is fit to show, or an error that says whether to retry.
use mentor_ia_worker.Prelude.{
  ℕ, ◌≡◌, subst, Bool, true, false, ◌||◌, some, List, [], ◌∷◌, ◌++◌, leb, ltb, ◌==◌, arith,
  if◌then◌else◌,
}
use mentor_ia_worker.Text.{Bytes, bytes, is_empty, trim_space}
use mentor_ia_worker.Text.Trim.{trim_space_idem}
use mentor_ia_worker.Domain.Errors.{Error, plain, Result, ok, err, as_retryable}
use mentor_ia_worker.Postgres.Session.{
  World, Action, continue, relabel, labelled, attempt, throw, of_result, ◌>>=◌, ◌>>◌,
}
use mentor_ia_worker.OpenRouter.{
  Client, Transport, HttpResponse, request_of, ChatMessage, is_safety_classification, new_api_error,
  status_code, read_content, read_reply, after_send, complete, classify_transport_error,
}

-- What the student may see.
pub record IsFit (content : Bytes) : Type 0 where
  pub trimmed : trim_space content ≡ content
  pub present : is_empty content ≡ false
  pub not_classification : is_safety_classification content ≡ false

read_content-IsFit :
    (choices : List ChatMessage) (content : Bytes)
    → read_content choices ≡ ok content
    → IsFit content
unfolding read_content
read_content-IsFit [] content h = cc
read_content-IsFit (choice ∷ _) content h =
    fit (trim_space choice.content) (trim_space_idem choice.content) (ground arith)
  where
    fit :
        (t : Bytes)
        → trim_space t ≡ t
        → (is_empty t ≡ false) × (is_safety_classification t ≡ false) × (t ≡ content)
        → IsFit content
    fit t e (p, q, r) = subst IsFit r (record { trimmed = e; present = p; not_classification = q })

module _ (t : Transport) (content : Bytes) where
  abbrev Answers : Action Bytes → Type 0
  Answers act = (w : World) → (act w).0 ≡ ok content → IsFit content

  choices-IsFit :
      (r : Result (List ChatMessage)) (w : World)
      → (continue
          (relabel "falha ao decodificar resposta OpenRouter: " r)
          w
          (λ choices. of_result (read_content choices))).0
        ≡ ok content
      → IsFit content
  choices-IsFit (ok choices) w h = read_content-IsFit choices content h
  choices-IsFit (err e) w h = cc

  read_reply-IsFit : (status : ℕ) (body : Bytes) → Answers (read_reply t status body)
  unfolding read_reply
  read_reply-IsFit status body w h = at_test (ltb status 200 || leb 300 status) h
    where
      rest : Action Bytes
      rest =
          labelled "falha ao decodificar resposta OpenRouter: "
            (of_result (t.unmarshal_choices body))
          >>= λ choices. of_result (read_content choices)

      at_test :
          (b : Bool)
          → ((if b then throw (new_api_error status body) else rest) w).0 ≡ ok content
          → IsFit content
      at_test true q = cc
      at_test false q = choices-IsFit (t.unmarshal_choices body) w q

  body-IsFit :
      (status : ℕ) (r : Result Bytes) (w : World)
      → (continue (relabel "falha ao ler resposta OpenRouter: " r) w (read_reply t status)).0
        ≡ ok content
      → IsFit content
  body-IsFit status (ok body) w h = read_reply-IsFit status body w h
  body-IsFit status (err e) w h = cc

  after_send-IsFit : (r : Result HttpResponse) → Answers (after_send t r)
  unfolding after_send
  after_send-IsFit (ok response) w h =
      body-IsFit response.status (response.body w).0 (response.body w).1 h
  after_send-IsFit (err e) w h = cc

  send-IsFit :
      (c : Client) (prompt : Bytes) (r : Result (Unit {0})) (w : World)
      → (continue
          (relabel "falha ao criar request OpenRouter: " r)
          w
          (λ _. attempt (t.send (request_of c t prompt)) >>= after_send t)).0
        ≡ ok content
      → IsFit content
  send-IsFit c prompt (ok _) w h =
      after_send-IsFit (t.send (request_of c t prompt) w).0 (t.send (request_of c t prompt) w).1 h
  send-IsFit c prompt (err e) w h = cc

-- An answer that Complete returns without an error is fit to be shown: it
-- has no space at its ends, it is not empty, and it is not a safety classification.
pub complete-IsFit :
    (c : Client) (t : Transport) (prompt : Bytes) (w : World) (content : Bytes)
    → (complete c t prompt w).0 ≡ ok content
    → IsFit content
unfolding complete
complete-IsFit c t prompt w content h = at_test (is_empty (trim_space prompt)) h
  where
    rest : Action Bytes
    rest =
        labelled "falha ao criar request OpenRouter: "
          (of_result (t.check_url (c.base_url ++ bytes "/chat/completions")))
        >> (attempt (t.send (request_of c t (trim_space prompt))) >>= after_send t)

    at_test :
        (b : Bool)
        → ((if b then throw (plain "prompt nao pode estar vazio") else rest) w).0 ≡ ok content
        → IsFit content
    at_test true q = cc
    at_test false q =
        send-IsFit t content c (trim_space prompt)
          (t.check_url (c.base_url ++ bytes "/chat/completions")) w q

-- What the two kinds of errors say about a retry.
pub as_retryable-classify : (e : Error) → as_retryable (classify_transport_error e) ≡ some true
unfolding classify_transport_error as_retryable
as_retryable-classify e = ground arith

pub as_retryable-new_api_error :
    (status : ℕ) (body : Bytes)
    → as_retryable (new_api_error status body) ≡ some (status == 429 || leb 500 status)
unfolding new_api_error as_retryable status_code
as_retryable-new_api_error status body = grind arith
