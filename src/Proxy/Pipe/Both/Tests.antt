-- ===== src/Proxy/Pipe/Both/Tests.antt =====
-- A relay of internal/proxy/pipe.go whose client has sent two bytes when the backend closes.
use ciallo.Common.{
  ◌≤◌, ◌≡◌, refl, Bytes, [], ◌∷◌, ◌++◌, ◌||◌, true, false, if◌then◌else◌, Option, none, some, ◌⊎◌,
  length, take,
}
use ciallo.Go.Errors.{Error, eof}
use ciallo.Go.Writer.{Writer, open_writer}
use ciallo.Proxy.Pipe.Both.{
  Relay, start_relay, start_copy, take_read, after_read, close_once, reads, writes, Step, ups,
  downs, Run, here, next, stats,
}
use ciallo.Proxy.Pipe.Both.Ends.{Run-Relays, Run-Returns}

abbrev backend : Writer
backend = open_writer (16 ∷ [])

abbrev client : Writer
client = open_writer []

abbrev hello : Bytes × Option Error
hello = (1 ∷ 2 ∷ [], none)

abbrev goodbye : Bytes × Option Error
goodbye = ([], some eof)

-- The two reads.
abbrev read_up : Relay
read_up =
    let r = start_relay backend client in
    close_once (take_read false hello r.up).ended (record r { up = take_read false hello r.up })

abbrev read_both : Relay
read_both =
    let r = read_up in
    close_once (take_read false goodbye r.down).ended
      (record r { down = take_read false goodbye r.down })

-- The loop from the backend returns.
abbrev down_ended : Relay
down_ended =
    let c = after_read false [] (some eof) read_both.down in
    close_once c.ended (record read_both { down = c })

-- The other loop writes to a connection that is closed by now.
abbrev both_ended : Relay
both_ended =
    let c = after_read true (1 ∷ 2 ∷ []) none down_ended.up in
    close_once c.ended (record down_ended { up = c })

down_ended-Run : Run (start_relay backend client) 3 down_ended
unfolding start_relay start_copy take_read after_read close_once
down_ended-Run =
    let first =
      next here (
        ups (start_relay backend client) (reads (start_relay backend client).up hello refl refl)) in
    let second = next first (downs read_up (reads read_up.down goodbye refl refl)) in
    next second (downs read_both (writes read_both.down [] (some eof) refl refl))

both_ended-Run : Run down_ended 1 both_ended
unfolding start_relay start_copy take_read after_read close_once
both_ended-Run = next here (ups down_ended (writes down_ended.up (1 ∷ 2 ∷ []) none refl refl))

Run-Relays_example :
    (down_ended.up.dst.sent
      ≡ (16 ∷ []) ++ take (stats down_ended).client_to_backend down_ended.up.taken)
    × ((stats down_ended).client_to_backend ≤ length down_ended.up.taken)
    × (down_ended.down.dst.sent
        ≡ [] ++ take (stats down_ended).backend_to_client down_ended.down.taken)
    × ((stats down_ended).backend_to_client ≤ length down_ended.down.taken)
    × (down_ended.closes ≡ (if down_ended.up.ended || down_ended.down.ended then 1 else 0))
Run-Relays_example = Run-Relays backend client down_ended-Run

Run-Returns_example :
    (1 ≤ 3)
    × (((both_ended.up.ended ≡ true) × (both_ended.down.ended ≡ true))
        ⊎ ((t : Relay) × Step both_ended t))
unfolding start_relay start_copy take_read after_read close_once
Run-Returns_example = Run-Returns backend client down_ended-Run refl both_ended-Run
