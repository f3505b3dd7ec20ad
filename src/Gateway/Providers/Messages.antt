-- ===== src/Gateway/Providers/Messages.antt =====
-- What the two translations keep of the messages.
use llmops_platform.Prelude.{
  ◌≡◌, refl, sym, ◌∙◌, Str, codes, Bool, true, false, Option, none, some, List, [], ◌∷◌, ◌++◌,
  arith, map, filter, if◌then◌else◌, append_assoc, append-nil, ◌≢◌, not, Bool-cases, inl, inr,
}
use llmops_platform.Gateway.Schemas.{Role, role_value, Message}
use llmops_platform.Gateway.Providers.Anthropic
use llmops_platform.Gateway.Providers.Gemini

abbrev pub is_dialogue : Role → Bool
is_dialogue Role.system = false
is_dialogue _ = true

-- The text of the last system message, or `s` if there is none.
abbrev pub last_system : Option Str → List Message → Option Str
last_system s [] = s
last_system s (m ∷ ms) = last_system (if is_dialogue m.role then s else some m.content) ms

abbrev pub dialogue : List Message → List Message
dialogue ms = filter (λ (m : Message). is_dialogue m.role) ms

abbrev pub anthropic_message : Message → Anthropic.VendorMessage
anthropic_message m = record { role = role_value m.role; content = m.content }

-- Gemini's name of a role
abbrev pub gemini_role : Role → Str
gemini_role Role.assistant = codes "model"
gemini_role _ = codes "user"

abbrev pub gemini_message : Message → Gemini.Content
gemini_message m = record { role = gemini_role m.role; text = m.content }

last_system_any :
    (s t : Option Str) (ms : List Message)
    → filter (λ (m : Message). not (is_dialogue m.role)) ms ≢ []
    → last_system s ms ≡ last_system t ms
last_system_any s t [] h = absurd (h refl)
last_system_any s t (m ∷ ms) h = elim (Bool-cases (is_dialogue m.role)) [
  | inl e ↦ rw e (last_system_any s t ms (λ k. h (rw e k)))
  | inr e ↦ rw e
]

split_from :
    (ms : List Message) (s : Anthropic.Split)
    → Anthropic.split_messages ms s ≡ record {
      system_message = last_system s.system_message ms;
      messages = s.messages ++ map anthropic_message (dialogue ms);
    }
unfolding Anthropic.split_messages
split_from [] s = rw append-nil
split_from (m ∷ ms) s = ground (
  arith,
  split_from ms (Anthropic.add_message m.role m.content s),
  append_assoc s.messages (anthropic_message m ∷ []) (map anthropic_message (dialogue ms)),
)

contents_from :
    (ms : List Message) (s : Gemini.Split)
    → Gemini.build_contents ms s ≡ record {
      contents = s.contents ++ map gemini_message (dialogue ms);
      system_instruction = last_system s.system_instruction ms;
    }
unfolding Gemini.build_contents
contents_from [] s = rw append-nil
contents_from (m ∷ ms) s = ground (
  arith,
  contents_from ms (Gemini.add_content m.role m.content s),
  append_assoc s.contents (gemini_message m ∷ []) (map gemini_message (dialogue ms)),
)

-- Both translations send the user's and the assistant's messages in their order, under the
-- vendor's names of the roles, and of the system messages the text of the last one only.
pub translations_agree :
    (ms : List Message)
    → (Anthropic.split_messages ms Anthropic.no_messages ≡ record {
      system_message = last_system none ms;
      messages = map anthropic_message (dialogue ms);
    })
      × (Gemini.build_contents ms Gemini.no_contents ≡ record {
        contents = map gemini_message (dialogue ms);
        system_instruction = last_system none ms;
      })
translations_agree ms = (split_from ms Anthropic.no_messages, contents_from ms Gemini.no_contents)

-- Where a system message stands behind it, a system message in front of the list does not show in
-- what is sent to either vendor.
pub front_system_lost :
    (text : Str) (ms : List Message)
    → filter (λ (m : Message). not (is_dialogue m.role)) ms ≢ []
    → let front : Message = record { role = Role.system; content = text } in
      (Anthropic.split_messages (front ∷ ms) Anthropic.no_messages
        ≡ Anthropic.split_messages ms Anthropic.no_messages)
      × (Gemini.build_contents (front ∷ ms) Gemini.no_contents
          ≡ Gemini.build_contents ms Gemini.no_contents)
front_system_lost text ms some_system =
    let front : Message = record { role = Role.system; content = text } in
    let (a, g) = translations_agree (front ∷ ms) in
    let (a', g') = translations_agree ms in
    let same = last_system_any (some text) none ms some_system in
    (a ∙ (rw same (sym a')), g ∙ (rw same (sym g')))
