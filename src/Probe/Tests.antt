-- ===== src/Probe/Tests.antt =====
-- A run against a server that answers with one document.
use ciallo.Common.{◌≡◌, refl, Bytes, [], ◌++◌, none, bytes_eq}
use ciallo.Common.Int.{pos}
use ciallo.Go.Errors.{Result, ok, eof}
use ciallo.Go.Reader.{Reader}
use ciallo.Go.Writer.{Writer, open_writer}
use ciallo.Go.Text.{codes}
use ciallo.Mcproto.Status.{build_status_response}
use ciallo.Probe.Description.{
  Fields, null, flatten, Chat, chat, none_left, next, render, encode, flatten-encode, IsVisible,
}
use ciallo.Probe.{Options, Root}

abbrev hello : Chat
hello =
    chat (codes "Hello, ")
      (next (chat (codes "wor") (next (chat (codes "ld") none_left) none_left)) none_left)

no_marshal : Fields → Bytes
no_marshal fs = codes "{}"

flatten-encode_example : flatten no_marshal (encode hello) ≡ codes "Hello, world"
unfolding render IsVisible
flatten-encode_example = flatten-encode no_marshal hello (refl, ((refl, ((refl, tt), tt)), tt))

abbrev options : Options
options = record {
  addr = codes "10.0.0.1:25565";
  host = codes "mc.example.org";
  port = 0;
  protocol_version = 0;
  timeout = pos 0;
  max_response_size = pos 0;
}

abbrev document : Bytes
document = codes "{}"

abbrev root : Root
root = record { version = none; players = none; description = null }

decode : Bytes → Result Root
decode raw = ok root

answer : Bytes → Result (Writer × Reader)
answer addr =
    ok (open_writer [], record { pending = (build_status_response document).raw ++ []; stop = eof })
