-- ===== src/Proto/Opcodes.antt =====
-- proto/constants.go: the packets that peers and servers send.
use ged2k.Prelude.{ℕ}

abbrev pub op_hello : ℕ
op_hello = 0x01

abbrev pub op_hello_answer : ℕ
op_hello_answer = 0x4c

abbrev pub op_filereqansnofil : ℕ
op_filereqansnofil = 0x48

abbrev pub op_end_of_download : ℕ
op_end_of_download = 0x49

abbrev pub op_requestparts : ℕ
op_requestparts = 0x47

abbrev pub op_setreqfileid : ℕ
op_setreqfileid = 0x4f

abbrev pub op_filestatus : ℕ
op_filestatus = 0x50

abbrev pub op_hashsetrequest : ℕ
op_hashsetrequest = 0x51

abbrev pub op_hashsetanswer : ℕ
op_hashsetanswer = 0x52

abbrev pub op_startuploadreq : ℕ
op_startuploadreq = 0x54

abbrev pub op_acceptuploadreq : ℕ
op_acceptuploadreq = 0x55

abbrev pub op_canceltransfer : ℕ
op_canceltransfer = 0x56

abbrev pub op_outofpartreqs : ℕ
op_outofpartreqs = 0x57

abbrev pub op_requestfilename : ℕ
op_requestfilename = 0x58

abbrev pub op_reqfilenameanswer : ℕ
op_reqfilenameanswer = 0x59

abbrev pub op_queueranking : ℕ
op_queueranking = 0x60

abbrev pub op_publicip_req : ℕ
op_publicip_req = 0x97

abbrev pub op_publicip_answer : ℕ
op_publicip_answer = 0x98

abbrev pub op_requestparts_i64 : ℕ
op_requestparts_i64 = 0xa3

-- To and from servers.
abbrev pub op_loginrequest : ℕ
op_loginrequest = 0x01

abbrev pub op_getserverlist : ℕ
op_getserverlist = 0x14

abbrev pub op_searchrequest : ℕ
op_searchrequest = 0x16

abbrev pub op_getsources : ℕ
op_getsources = 0x19

abbrev pub op_query_more_result : ℕ
op_query_more_result = 0x21

abbrev pub op_serverlist : ℕ
op_serverlist = 0x32

abbrev pub op_searchresult : ℕ
op_searchresult = 0x33

abbrev pub op_serverstatus : ℕ
op_serverstatus = 0x34

abbrev pub op_servermessage : ℕ
op_servermessage = 0x38

abbrev pub op_idchange : ℕ
op_idchange = 0x40

abbrev pub op_serverident : ℕ
op_serverident = 0x41
