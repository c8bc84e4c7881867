-- ===== src/Plugins/Sites/Games.antt =====
-- The plugins of haarp/plugins for sites of games and their pictures.
use haarpcache.Base.{◌&&◌, ◌||◌}
use haarpcache.Text.{codes}
use haarpcache.Plugins.{Site, has}

abbrev pub amazonaws_com : Site
amazonaws_com = record {
  test = λ url.
      has (codes ".amazonaws.com/") url
      && (has (codes ".jpg") url
          || has (codes ".png") url
          || has (codes ".gif") url
          || has (codes ".swf") url
          || has (codes ".mp3") url);
  domain = codes "GAMESF_amazonaws";
}

abbrev pub appspot_com : Site
appspot_com = record {
  test = λ url. has (codes ".appspot.com") url;
  domain = codes "GAMESF_appspot";
}

abbrev pub cloudfront_net : Site
cloudfront_net = record {
  test = λ url.
      (has (codes ".cloudfront.net") url && has (codes ".jpg") url)
      || has (codes ".png") url
      || has (codes ".swf") url
      || has (codes ".mp3") url;
  domain = codes "GAMESF_cloudfront";
}

abbrev pub disneylatino_com : Site
disneylatino_com = record {
  test = λ url.
      (has (codes ".disneylatino.com") url && has (codes ".jpg") url)
      || has (codes ".swf") url
      || has (codes ".gif") url;
  domain = codes "DISNEY";
}

abbrev pub dungeonbusters_com : Site
dungeonbusters_com = record {
  test = λ url.
      (has (codes ".dungeonbusters.com/") url && has (codes ".jpg") url)
      || has (codes ".png") url
      || has (codes ".swf") url
      || has (codes ".mp3") url;
  domain = codes "GAMESF_dungeonbusters";
}

abbrev pub geewa_net : Site
geewa_net = record { test = λ url. has (codes ".geewa.net") url; domain = codes "GAMESF_geewa" }

abbrev pub kixeye_com : Site
kixeye_com = record {
  test = λ url.
      (has (codes ".kixeye.com") url && has (codes ".jpg") url)
      || has (codes ".png") url
      || has (codes ".swf") url
      || has (codes ".mp3") url;
  domain = codes "GAMESF_kixeye";
}

abbrev pub llnwd_net : Site
llnwd_net = record { test = λ url. has (codes ".llnwd.net") url; domain = codes "GAMESF_llnwd" }

abbrev pub miniclip_com : Site
miniclip_com = record {
  test = λ url.
      (has (codes ".miniclip.com") url && has (codes ".jpg") url)
      || has (codes ".png") url
      || has (codes ".swf") url
      || has (codes ".mp3") url;
  domain = codes "GAMESF_miniclip";
}

abbrev pub netpocket_org : Site
netpocket_org = record {
  test = λ url. has (codes ".netpocket.org") url;
  domain = codes "GF_netpocket";
}

abbrev pub nordeus_com : Site
nordeus_com = record {
  test = λ url.
      (has (codes ".nordeus.com") url && has (codes ".jpg") url)
      || has (codes ".png") url
      || has (codes ".swf") url
      || has (codes ".mp3") url;
  domain = codes "GAMESF_nordeus";
}

abbrev pub popcap_com : Site
popcap_com = record {
  test = λ url.
      has (codes ".popcap.com/") url
      && (has (codes ".jpg") url
          || has (codes ".png") url
          || has (codes ".gif") url
          || has (codes ".swf") url
          || has (codes ".mp3") url);
  domain = codes "GAMESF_popcap";
}

abbrev pub telaxo_com : Site
telaxo_com = record {
  test = λ url.
      (has (codes ".telaxo.com/") url && has (codes ".jpg") url)
      || has (codes ".png") url
      || has (codes ".swf") url
      || has (codes ".mp3") url;
  domain = codes "GAMESF_telaxo";
}

abbrev pub tetrisfb_com : Site
tetrisfb_com = record {
  test = λ url. has (codes ".tetrisfb.com") url;
  domain = codes "GAMESF_tetrisfb";
}

abbrev pub vostucdn_com : Site
vostucdn_com = record {
  test = λ url.
      (has (codes ".vostucdn.com/") url && has (codes ".jpg") url)
      || has (codes ".png") url
      || has (codes ".gif") url
      || has (codes ".swf") url
      || has (codes ".mp3") url;
  domain = codes "GAMESF_vostucdn";
}

abbrev pub wooga_com : Site
wooga_com = record {
  test = λ url.
      (has (codes ".wooga.com/") url && has (codes ".jpg") url)
      || has (codes ".png") url
      || has (codes ".swf") url
      || has (codes ".mp3") url;
  domain = codes "GAMESF_wooga";
}
