-- ===== src/Canonical/Names.antt =====
-- The names of app/engine/canonical/profiles.py: the canonical keys and their aliases.
use Prim.Native.String.{String}
use trace_x.Common.{List, [], ◌∷◌, ◌++◌, map}
use trace_x.Canonical.Text.{Text, codes}

-- `CANONICAL_KEYS`
abbrev pub canonical_keys : List Text
canonical_keys = map codes (
    "txid" ∷ "network" ∷ "timestamp" ∷ "observed_at" ∷ "block_hash" ∷ "block_height" ∷ "block_time"
    ∷ "fee" ∷ "fee_sats" ∷ "inputs" ∷ "outputs" ∷ "input_addresses" ∷ "input_amounts"
    ∷ "input_amounts_sats" ∷ "output_addresses" ∷ "output_amounts" ∷ "output_amounts_sats"
    ∷ "script_type" ∷ "src_ip" ∷ "dst_ip" ∷ "src_port" ∷ "dst_port" ∷ "geo_country" ∷ "asn"
    ∷ "observer_id" ∷ [])

-- The rows of `_LOOKUP` for one canonical key.
abbrev pub aliases : String → List String → List (Text × Text)
aliases canonical names = map (λ name. (codes name, codes canonical)) names

-- `_LOOKUP`. The parts join to one table: an alias stands for one canonical key.
unfoldable pub lookup_table : List (Text × Text)
lookup_table =
    aliases "txid" (
      "txid" ∷ "txhash" ∷ "transactionid" ∷ "transactionhash" ∷ "hash" ∷ "tx" ∷ "txidhex"
      ∷ "transaction" ∷ [])
    ++ aliases "timestamp" (
        "timestamp" ∷ "time" ∷ "datetime" ∷ "ts" ∷ "eventtime" ∷ "capturetime" ∷ "capturedat"
        ∷ "date" ∷ "timestamputc" ∷ "eventtimestamp" ∷ "seenat" ∷ "firstseen" ∷ [])
    ++ aliases "observed_at" ("observedat" ∷ "observertime" ∷ "receivedat" ∷ [])
    ++ aliases "src_ip" (
        "srcip" ∷ "sourceip" ∷ "ipsrc" ∷ "srcaddr" ∷ "srcipaddress" ∷ "sourceipaddress" ∷ "clientip"
        ∷ "peerip" ∷ [])
    ++ aliases "dst_ip" (
        "dstip" ∷ "destip" ∷ "destinationip" ∷ "ipdst" ∷ "dstaddr" ∷ "dstipaddress"
        ∷ "destinationipaddress" ∷ "serverip" ∷ [])
    ++ aliases "src_port" ("srcport" ∷ "sourceport" ∷ "sport" ∷ "portsrc" ∷ [])
    ++ aliases "dst_port" ("dstport" ∷ "destport" ∷ "destinationport" ∷ "dport" ∷ "portdst" ∷ [])
    ++ aliases "input_addresses" (
        "inputaddresses" ∷ "inputaddress" ∷ "inaddresses" ∷ "fromaddresses" ∷ "fromaddress"
        ∷ "senderaddresses" ∷ "senders" ∷ "inputwallets" ∷ "inputwalletaddresses" ∷ "fromwallets"
        ∷ "from" ∷ [])
    ++ aliases "output_addresses" (
        "outputaddresses" ∷ "outputaddress" ∷ "outaddresses" ∷ "toaddresses" ∷ "toaddress"
        ∷ "receiveraddresses" ∷ "receivers" ∷ "outputwallets" ∷ "outputwalletaddresses"
        ∷ "towallets" ∷ "to" ∷ [])
    ++ aliases "input_amounts" (
        "inputamounts" ∷ "inputamount" ∷ "inamounts" ∷ "inputvalues" ∷ "invalues"
        ∷ "inputamountsbtc" ∷ "inputvaluesbtc" ∷ "fromamounts" ∷ [])
    ++ aliases "output_amounts" (
        "outputamounts" ∷ "outputamount" ∷ "outamounts" ∷ "outputvalues" ∷ "outvalues"
        ∷ "outputamountsbtc" ∷ "outputvaluesbtc" ∷ "toamounts" ∷ [])
    ++ aliases "input_amounts_sats" (
        "inputamountssats" ∷ "inputvaluessats" ∷ "inputamountssatoshi" ∷ "inputvaluessatoshi"
        ∷ "inputamountssatoshis" ∷ "inamountssats" ∷ [])
    ++ aliases "output_amounts_sats" (
        "outputamountssats" ∷ "outputvaluessats" ∷ "outputamountssatoshi" ∷ "outputvaluessatoshi"
        ∷ "outputamountssatoshis" ∷ "outamountssats" ∷ [])
    ++ aliases "fee" ("fee" ∷ "fees" ∷ "txfee" ∷ "transactionfee" ∷ "feebtc" ∷ "feeamount" ∷ [])
    ++ aliases "fee_sats" ("feesats" ∷ "feesatoshi" ∷ "feesatoshis" ∷ "feeinsats" ∷ [])
    ++ aliases "script_type"
        ("scripttype" ∷ "script" ∷ "addresstype" ∷ "outputscripttype" ∷ "scriptpubkeytype" ∷ [])
    ++ aliases "geo_country" (
        "geocountry" ∷ "country" ∷ "countrycode" ∷ "geo" ∷ "srccountry" ∷ "sourcecountry"
        ∷ "geoipcountry" ∷ "ipcountry" ∷ [])
    ++ aliases "asn" (
        "asn" ∷ "asnumber" ∷ "as" ∷ "srcasn" ∷ "sourceasn" ∷ "autonomoussystem"
        ∷ "autonomoussystemnumber" ∷ [])
    ++ aliases "block_height" ("blockheight" ∷ "height" ∷ "block" ∷ [])
    ++ aliases "block_time" ("blocktime" ∷ "blocktimestamp" ∷ "confirmedat" ∷ [])
    ++ aliases "block_hash" ("blockhash" ∷ [])
    ++ aliases "network" ("network" ∷ "chain" ∷ "net" ∷ [])
    ++ aliases "observer_id"
        ("observerid" ∷ "sensor" ∷ "sensorid" ∷ "observer" ∷ "probe" ∷ "collector" ∷ [])
