-- ===== src/Events/Fields.antt =====
-- What `parse_netlink_attributes` leaves in each field.
use mptcpd.Common.{
  ℕ, Option, none, some, List, [], ◌∷◌, ◌==◌, ◌&&◌, if◌then◌else◌, ◌≡◌, arith, refl, ap, ◌∙◌,
}
use mptcpd.Events.Attributes.{Attrs, Attribute, no_attrs, parse_attr, parse_list, parse}

-- The fields that hold a number.
pub data Field : Type 0 where
  token laddr_id raddr_id laddr4 raddr4 local_port remote_port index backup error server_side :
      Field

abbrev pub number : Field → Attrs → Option ℕ
number token attrs = attrs.token
number laddr_id attrs = attrs.laddr_id
number raddr_id attrs = attrs.raddr_id
number laddr4 attrs = attrs.laddr4
number raddr4 attrs = attrs.raddr4
number local_port attrs = attrs.local_port
number remote_port attrs = attrs.remote_port
number index attrs = attrs.index
number backup attrs = attrs.backup
number error attrs = attrs.error
number server_side attrs = attrs.server_side

-- The attribute type of a field, by the header linux/mptcp.h, and its size in bytes.
abbrev pub code : Field → ℕ
code token = 1
code laddr_id = 3
code raddr_id = 4
code laddr4 = 5
code raddr4 = 7
code local_port = 9
code remote_port = 10
code index = 15
code backup = 11
code error = 12
code server_side = 18

abbrev pub size : Field → ℕ
size token = 4
size laddr_id = 1
size raddr_id = 1
size laddr4 = 4
size raddr4 = 4
size local_port = 2
size remote_port = 2
size index = 4
size backup = 1
size error = 1
size server_side = 1

-- The last attribute of a type that has the size of its field, or `before`.
unfoldable pub last_valid {ℓ} :
    {A : Type ℓ} → (Attribute → A) → ℕ → ℕ → List Attribute → Option A → Option A
last_valid payload code size [] before = before
last_valid payload code size (a ∷ rest) before =
    last_valid payload code size rest
      (if a.type == code && a.len == size then some (payload a) else before)

number-parse_attr :
    (f : Field) (a : Attribute) (attrs : Attrs)
    → number f (parse_attr a attrs)
      ≡ (if a.type == code f && a.len == size f then some a.value else number f attrs)
unfolding parse_attr
number-parse_attr token a attrs = ground arith
number-parse_attr _ a attrs = ground arith

number-parse_list :
    (f : Field) (msg : List Attribute) (attrs : Attrs)
    → number f (parse_list msg attrs)
      ≡ last_valid (λ a. a.value) (code f) (size f) msg (number f attrs)
unfolding parse_list last_valid
number-parse_list f [] attrs = refl
number-parse_list f (a ∷ rest) attrs =
    number-parse_list f rest (parse_attr a attrs)
    ∙ ap (last_valid (λ x. x.value) (code f) (size f) rest) (number-parse_attr f a attrs)

bytes-parse_attr :
    (a : Attribute) (attrs : Attrs)
    → ((parse_attr a attrs).laddr6
        ≡ (if a.type == 6 && a.len == 16 then some a.bytes else attrs.laddr6))
      × ((parse_attr a attrs).raddr6
          ≡ (if a.type == 8 && a.len == 16 then some a.bytes else attrs.raddr6))
unfolding parse_attr
bytes-parse_attr a attrs = ground arith

bytes-parse_list :
    (msg : List Attribute) (attrs : Attrs)
    → ((parse_list msg attrs).laddr6 ≡ last_valid (λ a. a.bytes) 6 16 msg attrs.laddr6)
      × ((parse_list msg attrs).raddr6 ≡ last_valid (λ a. a.bytes) 8 16 msg attrs.raddr6)
unfolding parse_list last_valid
bytes-parse_list [] attrs = (refl, refl)
bytes-parse_list (a ∷ rest) attrs =
    let ih = bytes-parse_list rest (parse_attr a attrs) in
    let e = bytes-parse_attr a attrs in
    (
      ih.0 ∙ ap (last_valid (λ x. x.bytes) 6 16 rest) e.0,
      ih.1 ∙ ap (last_valid (λ x. x.bytes) 8 16 rest) e.1,
    )

-- After parsing, each numeric field holds the payload of the last attribute of its type that has its
-- size, and each IPv6 address that of the last one of 16 bytes; a field with no such attribute is
-- NULL. Attributes of other types and sizes have no effect.
pub parse-last_valid :
    (msg : List Attribute)
    → ((f : Field)
        → number f (parse (some msg) no_attrs)
          ≡ last_valid (λ a. a.value) (code f) (size f) msg none)
      × ((parse (some msg) no_attrs).laddr6 ≡ last_valid (λ a. a.bytes) 6 16 msg none)
      × ((parse (some msg) no_attrs).raddr6 ≡ last_valid (λ a. a.bytes) 8 16 msg none)
unfolding parse
parse-last_valid msg =
    let b = bytes-parse_list msg no_attrs in
    (
      λ f.
          number-parse_list f msg no_attrs
          ∙ ap (last_valid (λ a. a.value) (code f) (size f) msg) (number-none f),
      b.0,
      b.1,
    )
  where
    number-none : (f : Field) → number f no_attrs ≡ none
    number-none token = refl
    number-none _ = refl
