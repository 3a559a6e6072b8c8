-- ===== src/Probe/Description.antt =====
-- `flattenDescription` of internal/probe/probe.go on the values that `encoding/json` decodes.
use ciallo.Common.{◌≡◌, refl, ap, ◌∙◌, Bytes, [], ◌∷◌, ◌++◌, false, if◌then◌else◌, ◌==◌, bytes_eq}
use ciallo.Go.Defaults.{is_blank, or_text}
use ciallo.Go.Text.{codes}

-- `other` is a number or a Boolean, by what `fmt.Sprint` prints of it.
mutual
  pub data Value : Type 0 where
    null : Value
    text : Bytes → Value
    array : Items → Value
    object : Fields → Value
    other : Bytes → Value

  pub data Items : Type 0 where
    nil : Items
    cons : Value → Items → Items

  pub data Fields : Type 0 where
    end : Fields
    field : Bytes → Value → Fields → Fields

-- `text, ok := v["text"].(string)`, where any other value is none.
as_text : Value → Bytes
as_text (text s) = s
as_text _ = []

text_of : Fields → Bytes
unfolding as_text
text_of end = []
text_of (field k v fs) = if k == codes "text" then as_text v else text_of fs

-- `marshal` is `json.Marshal` of an object.
module _ (marshal : Fields → Bytes) where
  unfoldable mutual
    unfolding text_of

    pub flatten : Value → Bytes
    flatten null = []
    flatten (text s) = s
    flatten (array items) = flatten_items items
    flatten (object fields) = or_text (text_of fields ++ flatten_extra fields) (marshal fields)
    flatten (other printed) = printed

    pub flatten_items : Items → Bytes
    flatten_items nil = []
    flatten_items (cons v vs) = flatten v ++ flatten_items vs

    -- `flattenDescription(extra)` of `v["extra"]`, if it is there.
    pub flatten_extra : Fields → Bytes
    flatten_extra end = []
    flatten_extra (field k v fs) =
        let here = flatten v in
        let rest = flatten_extra fs in if k == codes "extra" then here else rest

-- A chat component: a text, and components that follow it.
mutual
  pub data Chat : Type 0 where
    chat : Bytes → Chats → Chat

  pub data Chats : Type 0 where
    none_left : Chats
    next : Chat → Chats → Chats

-- What a player reads.
unfoldable mutual
  pub render : Chat → Bytes
  render (chat s parts) = s ++ render_all parts

  pub render_all : Chats → Bytes
  render_all none_left = []
  render_all (next c cs) = render c ++ render_all cs

-- The component as a JSON value.
unfoldable mutual
  pub encode : Chat → Value
  encode (chat s parts) =
      object (field (codes "text") (text s) (field (codes "extra") (array (encode_all parts)) end))

  pub encode_all : Chats → Items
  encode_all none_left = nil
  encode_all (next c cs) = cons (encode c) (encode_all cs)

-- No component is empty.
unfoldable mutual
  unfolding render

  pub IsVisible : Chat → Type 0
  IsVisible (chat s parts) = (is_blank (s ++ render_all parts) ≡ false) × AreVisible parts

  pub AreVisible : Chats → Type 0
  AreVisible none_left = Unit
  AreVisible (next c cs) = IsVisible c × AreVisible cs

or_text-filled : (s d : Bytes) → is_blank s ≡ false → or_text s d ≡ s
or_text-filled [] d h = cc
or_text-filled (b ∷ bs) d h = refl

module _ (marshal : Fields → Bytes) where
  mutual
    unfolding flatten render encode IsVisible text_of as_text bytes_eq

    flatten_chat : (c : Chat) → IsVisible c → flatten marshal (encode c) ≡ render c
    flatten_chat (chat s parts) (filled, v) =
        let e = flatten_chats parts v in
        let fields =
          field (codes "text") (text s) (field (codes "extra") (array (encode_all parts)) end) in
        ap (λ t. or_text (s ++ t) (marshal fields)) e
        ∙ or_text-filled (s ++ render_all parts) (marshal fields) filled

    flatten_chats :
        (cs : Chats) → AreVisible cs → flatten_items marshal (encode_all cs) ≡ render_all cs
    flatten_chats none_left v = refl
    flatten_chats (next c cs) (here, v) =
        ap (λ s. s ++ flatten_items marshal (encode_all cs)) (flatten_chat c here)
        ∙ ap (λ t. render c ++ t) (flatten_chats cs v)

  -- The description of a chat component none of whose parts is empty is its text and the texts of
  -- its parts, from left to right at any depth.
  pub flatten-encode : (c : Chat) → IsVisible c → flatten marshal (encode c) ≡ render c
  flatten-encode c v = flatten_chat c v
