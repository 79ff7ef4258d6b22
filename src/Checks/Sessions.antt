-- ===== src/Checks/Sessions.antt =====
-- session.go: connections are handed out, and a stopped session ends.
use ged2k.Prelude.{
  ℕ, ◌≡◌, refl, true, false, Bool-cases, inl, inr, none, some, List, [], ◌∷◌, ok, arith,
}
use ged2k.Proto.Basic.{Endpoint, zero_hash}
use ged2k.Peers.{Peer, find_peer, same_endpoint}
use ged2k.Peers.Limits.{IsKnown, IsOrderOf}
use ged2k.Stats.{make_statistics}
use ged2k.Sessions.{
  Session, Link, Job, Output, nothing_left, is_none, close_transfer, delete_key, find_key,
}
use ged2k.Sessions.Tick.{Limits, hand_out}
use ged2k.Sessions.Step.{Message, link_closed, transfer_closed, step, run_all}
use ged2k.Prelude.Int.{pos}
use ged2k.Prelude.{replicate}
use ged2k.Proto.Buffer.{make_buffer, reread}
use ged2k.Proto.Packets.{HelloAnswer, get_hello_answer, put_hello_answer, size_hello_answer}
use ged2k.Proto.Packets.RoundTrip.{empty_hello_answer, hello_answer_bytes}
use ged2k.Sessions.Greeting.{Config, create_hello_answer, get_hello_answer-create_hello_answer}
use ged2k.Sessions.Limit.{enough, hand_out_ok}
use ged2k.Sessions.Quit.{Quits}
use ged2k.Sessions.Quit.Steps.{step-Quits}
use ged2k.Sessions.Ends.{AllClosed, run_all-ends}
use ged2k.Sessions.Ends.Keys.{any_message, closes_link, closes_job, is_closing}

abbrev in_order : Limits
in_order = record {
  max_connects_per_second = 2;
  max_connections = 10;
  reconnect_timeout = 0;
  order = λ ps. ps;
}

IsKnown-cons : (e : Endpoint) (q : Peer) (ps : List Peer) → IsKnown ps e → IsKnown (q ∷ ps) e
unfolding find_peer
IsKnown-cons e q ps (p, h) = elim (Bool-cases (same_endpoint q.endpoint e)) [
  | inl f ↦ (q, rw f refl)
  | inr f ↦ (p, rw f h)
]

IsOrderOf-cons : (q : Peer) (order ps : List Peer) → IsOrderOf order ps → IsOrderOf order (q ∷ ps)
IsOrderOf-cons q [] ps h = tt
IsOrderOf-cons q (p ∷ order) ps h =
    (IsKnown-cons p.endpoint q ps h.0, IsOrderOf-cons q order ps h.1)

IsOrderOf-self : (ps : List Peer) → IsOrderOf ps ps
unfolding find_peer same_endpoint
IsOrderOf-self [] = tt
IsOrderOf-self (p ∷ ps) = ((p, ground arith), IsOrderOf-cons p ps ps (IsOrderOf-self ps))

abbrev far_away : Endpoint
far_away = record { ip = 0x01020304; port = 4662 }

abbrev a_link : Link
a_link = record {
  endpoint = far_away;
  transfer = some 0;
  peer = some far_away;
  connected = true;
  disconnect_later = false;
  closed_by_request = false;
  dialed = true;
  stat = make_statistics;
}

abbrev a_job : Job
a_job = record {
  hash = zero_hash;
  flags = record {
    last_error = false;
    paused = false;
    finished = false;
    reading_resume_data = false;
    stopped = false;
    request_sources_next_time = none;
    policy = record {
      peers =
          record {
            source_flag = 2;
            last_connected = 0;
            next_connection = 0;
            fail_count = 0;
            peer_connection = none;
            endpoint = far_away;
            speed = 0;
          }
          ∷ [];
      max_peers = 100;
    };
  };
  stat = make_statistics;
}

abbrev a_session : Session
a_session = record {
  links = λ r. a_link;
  jobs = λ r. a_job;
  next_link = 1;
  next_job = 1;
  connections = [];
  transfers = (zero_hash, 0) ∷ [];
  server = none;
  candidate = false;
  stopped = false;
  execute = true;
  stat = make_statistics;
  last_tick = 0;
}

hand_out_ok_example :
    (r : Session × List Output) × (hand_out in_order 5 (enough a_session) a_session ≡ ok (some r))
hand_out_ok_example =
    hand_out_ok in_order 5 (enough a_session) a_session IsOrderOf-self (omega arith)

abbrev stopping : Session
stopping = record a_session { stopped = true; connections = (far_away, 0) ∷ [] }

stopping-Quits : Quits stopping
unfolding Quits nothing_left is_none
stopping-Quits st n = absurd (cc n)

is_paused :
    step in_order 7 (transfer_closed 0) (record stopping { connections = [] })
    ≡ ok (some (record stopping { connections = []; transfers = []; execute = false }, []))
unfolding step close_transfer delete_key nothing_left is_none
is_paused = refl

no_links-Quits : Quits (record stopping { connections = [] })
unfolding Quits nothing_left is_none
no_links-Quits st n = absurd (cc n)

step-Quits_example : Quits (record stopping { connections = []; transfers = []; execute = false })
step-Quits_example =
    step-Quits in_order 7 (transfer_closed 0) (record stopping { connections = [] })
      (record stopping { connections = []; transfers = []; execute = false }, []) no_links-Quits
      is_paused

abbrev closings : List (ℕ × Message)
closings = (8, transfer_closed 0) ∷ (9, link_closed 0 true) ∷ []

stopping-AllClosed : AllClosed stopping closings
unfolding find_key any_message closes_link closes_job
stopping-AllClosed = record { links = λ e h. ground (arith, h); jobs = λ k h. ground (arith, h) }

run_all-ends_example :
    (r : Session × List Output) × (run_all in_order closings stopping ≡ ok (some r))
    × (r.0.execute ≡ false)
run_all-ends_example =
    run_all-ends in_order closings stopping stopping-Quits refl
      (unfold is_closing in (refl, (refl, tt))) stopping-AllClosed

abbrev a_config : Config
a_config = record {
  listen_port = 4662;
  user_agent = replicate 16 7;
  client_name = b'g' ∷ b'e' ∷ b'd' ∷ [];
  mod_name = b'm' ∷ [];
  app_version = 0x3c;
  mod_major_version = 1;
  mod_minor_version = 1;
  mod_build_version = 0;
}

abbrev a_greeting : HelloAnswer
a_greeting = create_hello_answer a_config 16777343

get_hello_answer-create_hello_answer_example :
    (n : ℕ) × (size_hello_answer a_greeting ≡ pos n)
    × (get_hello_answer empty_hello_answer (reread (put_hello_answer a_greeting (make_buffer n)))
        ≡ (a_greeting, record { bytes = hello_answer_bytes a_greeting; err = none; pos = n }))
get_hello_answer-create_hello_answer_example =
    get_hello_answer-create_hello_answer a_config 16777343
      (record {
        agent_fits = refl;
        port_fits = omega arith;
        client_fits = omega arith;
        mod_fits = omega arith;
      })
      (omega arith)
