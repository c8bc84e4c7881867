-- ===== src/Plugins/Sites/Others.antt =====
-- The plugins of haarp/plugins for sites of videos, updates of virus scanners, and other files.
use haarpcache.Base.{not, ◌&&◌, ◌||◌}
use haarpcache.Text.{codes}
use haarpcache.Plugins.{Site, has}

abbrev pub five_min_com : Site
five_min_com = record { test = λ url. not (has (codes "time") url); domain = codes "aol" }

abbrev pub avast_com : Site
avast_com = record {
  test = λ url.
      has (codes ".avast.com/") url
      && (has (codes ".vpu") url || has (codes ".smtap") url)
      && not (has (codes "servers.def.vpu") url);
  domain = codes "avast";
}

abbrev pub avg_com : Site
avg_com = record {
  test = λ url.
      (has (codes "avg.com/") url
        || has (codes "grisoft.com/") url
        || has (codes "grisoft.cz/") url)
      && (has (codes ".exe") url || has (codes ".bin") url);
  domain = codes "avg";
}

abbrev pub etrustdownloads_ca_com : Site
etrustdownloads_ca_com = record {
  test = λ url.
      has (codes ".pkg") url
      || has (codes ".exe") url
      || has (codes ".zip") url
      || has (codes ".tar") url;
  domain = codes "etrust";
}

abbrev pub globo_com : Site
globo_com = record {
  test = λ url. not (has (codes "&start=") url) && not (has (codes "?start=") url);
  domain = codes "globo";
}

abbrev pub kaspersky_com : Site
kaspersky_com = record {
  test = λ url.
      has (codes ".bz2") url
      || has (codes "/diffs/") url
      || has (codes ".avc") url
      || has (codes ".kdc") url
      || has (codes ".klz") url
      || has (codes ".dif") url
      || has (codes ".dat") url
      || has (codes ".exe") url
      || has (codes ".kdz") url
      || has (codes ".kdl") url
      || has (codes ".kfb") url;
  domain = codes "kaspersky";
}

abbrev pub metacafe_com : Site
metacafe_com = record {
  test = λ url.
      (has (codes "akvideos.metacafe.com/") url || has (codes "v.mccont.com/") url)
      && has (codes "ItemFiles") url;
  domain = codes "metacafe";
}

abbrev pub modovideo_com : Site
modovideo_com = record {
  test = λ url.
      has (codes "modovideo.com/") url && (has (codes ".flv") url || not (has (codes ".mp4") url));
  domain = codes "modovideo";
}

abbrev pub pop6_com : Site
pop6_com = record {
  test = λ url. has (codes ".pop6.com/") url && has (codes ".flv") url;
  domain = codes "pop6";
}

abbrev pub serviporno_com : Site
serviporno_com = record {
  test = λ url. has (codes ".serviporno.com/") url;
  domain = codes "serviporno";
}

abbrev pub symantecliveupdate_com : Site
symantecliveupdate_com = record {
  test = λ url.
      has (codes ".symantecliveupdate.com/") url
      && (has (codes ".zip") url || has (codes ".exe") url);
  domain = codes "symantecliveupdate";
}

abbrev pub terra_com : Site
terra_com = record {
  test = λ url. has (codes ".terra.com") url && has (codes ".flv") url;
  domain = codes "terra";
}

abbrev pub uol_com_br : Site
uol_com_br = record { test = λ url. has (codes ".flv") url; domain = codes "uol" }

abbrev pub viddler_com : Site
viddler_com = record {
  test = λ url. has (codes "viddler.com/") url && has (codes ".flv") url;
  domain = codes "viddler";
}

abbrev pub video_msn_com : Site
video_msn_com = record {
  test = λ url. has (codes ".catalog.video.msn.com/") url && has (codes "share") url;
  domain = codes "msn_video";
}

abbrev pub ziddu_com : Site
ziddu_com = record {
  test = λ url. has (codes "downloads.ziddu.com/downloadfiles") url;
  domain = codes "ziddu";
}
