-- ===== src/Json/Encode.antt =====
-- server/data.go and `Encode` of server/jsonFuncs.go: the text that `json.Marshal` of Go's standard
-- library makes of a `Data` by its struct tags. Strings are in Json/Quote.antt.
use nvda_remote_server.Common.{
  Bool, true, false, Option, none, some, List, [], ◌∷◌, ◌++◌, Bytes, codes, bytes_eq, ◌==◌,
  if◌then◌else◌, map,
}
use nvda_remote_server.Common.Int.{ℤ, pos, int_eq}
use nvda_remote_server.Protocol.{Data, ClientData}
use nvda_remote_server.Json.Decimal.{append_int}
use nvda_remote_server.Json.Quote.{quote}

-- The texts with commas between them.
unfoldable pub commas : List Bytes → Bytes
commas [] = []
commas (x ∷ []) = x
commas (x ∷ y ∷ xs) = x ++ (b',' ∷ commas (y ∷ xs))

-- A member of an object.
unfoldable pub member : Bytes → Bytes → Bytes
member name text = quote name ++ (b':' ∷ text)

-- `omitempty`: no member for an empty value.
unfoldable pub unless : Bool → Bytes → List Bytes
unless empty text = if empty then [] else text ∷ []

unfoldable pub object : List Bytes → Bytes
unfolding commas
object members = b'{' ∷ (commas members ++ (b'}' ∷ []))

unfoldable pub array : List Bytes → Bytes
unfolding commas
array items = b'[' ∷ (commas items ++ (b']' ∷ []))

unfoldable pub int_text : ℤ → Bytes
int_text n = append_int [] n

unfoldable pub bool_text : Bool → Bytes
bool_text true = codes "true"
bool_text false = codes "false"

-- `ClientData`, whose members are never left out.
unfoldable pub client_text : ClientData → Bytes
unfolding object member int_text
client_text c = object (
    member (codes "id") (int_text c.id)
    ∷ member (codes "connection_type") (quote c.connection_type)
    ∷ [])

unfoldable pub string_member : Bytes → Bytes → List Bytes
unfolding unless member
string_member name s = unless (s == []) (member name (quote s))

unfoldable pub int_member : Bytes → ℤ → List Bytes
unfolding unless member int_text
int_member name n = unless (n == pos 0) (member name (int_text n))

unfoldable pub array_member : Bytes → List Bytes → List Bytes
unfolding member array
array_member name [] = []
array_member name (x ∷ xs) = member name (array (x ∷ xs)) ∷ []

unfoldable pub client_member : Bytes → Option ClientData → List Bytes
unfolding member client_text
client_member name none = []
client_member name (some c) = member name (client_text c) ∷ []

unfoldable pub bool_member : Bytes → Bool → List Bytes
unfolding member bool_text
bool_member name true = member name (bool_text true) ∷ []
bool_member name false = []

-- The members in the order of the struct.
unfoldable pub members_of : Data → List Bytes
unfolding member string_member int_member array_member client_member bool_member int_text
    client_text
members_of d =
    member (codes "type") (quote d.type)
    ∷ (string_member (codes "channel") d.channel
        ++ (string_member (codes "connection_type") d.connection_type
            ++ (int_member (codes "version") d.version
                ++ (int_member (codes "origin") d.origin
                    ++ (string_member (codes "key") d.key
                        ++ (int_member (codes "user_id") d.id
                            ++ (array_member (codes "user_ids") (map int_text d.user_ids)
                                ++ (array_member (codes "clients") (map client_text d.clients)
                                    ++ (client_member (codes "client") d.client
                                        ++ (string_member (codes "error") d.error
                                            ++ (string_member (codes "motd") d.motd
                                                ++ bool_member (codes "force_display")
                                                    d.motd_always_display)))))))))))

-- No value of the struct is one that `json.Marshal` refuses, so `Encode` has no error.
unfoldable pub encode : Data → Option Bytes
unfolding members_of object
encode d = some (object (members_of d))
